-- ===== src/Host/Callback/Buffers.antt =====
-- src/standalone/pw_host/rt_callback/process.rs: the buffers that PipeWire hands over, read as raw
-- addresses, and the reaction to a malformed one. Memory is a byte for each address. An `f32` has
-- four bytes, and the fields of an `spa_chunk` have four each; a field's value is its bit pattern.
use nam_audio_pipe.Base.{
  ℕ, ◌+◌, ◌*◌, ◌/◌, ◌%◌, ◌==◌, ◌&&◌, ◌||◌, ltb, leb, min, not, if◌then◌else◌, Bool, true, Option,
  none, some, List, [], ◌∷◌, u64_max, u32_max,
}

abbrev pub Memory : Type 0
Memory = ℕ → ℕ

-- The flag `RT_STATUS_HOST_CONTRACT_VIOLATION` with the memory that the callback may write.
pub record Host : Type 0 where
  pub violation : Bool
  pub memory : Memory

-- One channel: the data pointer, its `maxsize`, and the window of valid bytes.
pub record Channel : Type 0 where
  pub ptr : ℕ
  pub max : ℕ
  pub offset : ℕ
  pub size : ℕ

pub record SpaChunk : Type 0 where
  pub offset : ℕ
  pub size : ℕ
  pub stride : ℕ
  pub flags : ℕ

-- A chunk pointer and what stands behind it.
pub record ChunkPtr : Type 0 where
  pub address : ℕ
  pub chunk : SpaChunk

abbrev pub multiple_of_4 : ℕ → Bool
multiple_of_4 n = n % 4 == 0

abbrev pub checked_add : ℕ → ℕ → Option ℕ
checked_add a b = if ltb u64_max (a + b) then none else some (a + b)

abbrev pub apart : ℕ → ℕ → ℕ → ℕ → Option ℕ → Option ℕ → Option (ℕ × ℕ)
apart p_l p_r n_bytes n_samples none end_r = none
apart p_l p_r n_bytes n_samples (some end_l) none = none
apart p_l p_r n_bytes n_samples (some end_l) (some end_r) =
    if ltb p_l end_r && ltb p_r end_l then none else some (n_bytes, n_samples)

abbrev pub paired : ℕ → ℕ → Option (ℕ × ℕ) → Option (ℕ × ℕ) → Option (ℕ × ℕ)
paired p_l p_r none right = none
paired p_l p_r (some l) none = none
paired p_l p_r (some (n_bytes_l, n_samples_l)) (some (n_bytes_r, n_samples_r)) =
    if not (n_samples_l == n_samples_r)
    then none
    else apart p_l p_r n_bytes_l n_samples_l (checked_add p_l n_bytes_l) (checked_add p_r n_bytes_r)

abbrev pub zero_region : ℕ → ℕ → Memory → Memory
zero_region ptr bytes m a = if leb ptr a && ltb a (ptr + bytes) then 0 else m a

-- A chunk pointer that can be read.
abbrev pub is_readable : ChunkPtr → Bool
is_readable c = not (c.address == 0) && multiple_of_4 c.address

pub data ChunkWindow : Type 0 where
  valid : ℕ → ℕ → ChunkWindow
  absent : ChunkWindow
  malformed : ChunkWindow

unfoldable pub read_chunk_meta : ChunkPtr → ChunkWindow
read_chunk_meta c =
    if not (is_readable c)
    then absent
    else if not (c.chunk.stride == 4) || c.chunk.flags % 2 == 1
    then malformed
    else valid c.chunk.offset c.chunk.size

unfoldable pub stamp_chunk : ℕ → ChunkPtr → ChunkPtr
stamp_chunk bytes c =
    if is_readable c
    then record c {
      chunk = record (c.chunk) { offset = 0; size = bytes % (u32_max + 1); stride = 4 };
    }
    else c

-- One entry of `datas`: the data pointer, its `maxsize` and the chunk.
pub record Data : Type 0 where
  pub ptr : ℕ
  pub maxsize : ℕ
  pub chunk : ChunkPtr

-- `max_bridge_buf` is a constant of the engine crate.
module _ (max_bridge_buf : ℕ) where
  abbrev pub within : ℕ → ℕ → Option ℕ → Option (ℕ × ℕ)
  within len size none = none
  within len size (some end) =
      if ltb len end
      then none
      else if ltb max_bridge_buf (size / 4)
      then none
      else some (size, size / 4)

  -- The slice is its address and its length.
  unfoldable pub check_ffi_contract : ℕ → ℕ → ℕ → ℕ → Option (ℕ × ℕ)
  check_ffi_contract base len offset size =
      if not (multiple_of_4 base) || not (multiple_of_4 offset)
      then none
      else if not (multiple_of_4 size)
      then none
      else within len size (checked_add offset size)

  -- The first additions are the plain `+` of the source, which wraps in a release build.
  unfoldable pub check_spa_buffer_pair : Channel → Channel → Option (ℕ × ℕ)
  check_spa_buffer_pair l r =
      paired ((l.ptr + l.offset) % (u64_max + 1)) ((r.ptr + r.offset) % (u64_max + 1))
        (check_ffi_contract l.ptr l.max l.offset l.size)
        (check_ffi_contract r.ptr r.max r.offset r.size)

  -- The slices end at the bound of the host's `maxsize`.
  abbrev pub bounded : Channel → Channel
  bounded c = record c { max = min c.max (max_bridge_buf * 4) }

  unfoldable pub validate_spa_channel_pair : Channel → Channel → Option (ℕ × ℕ)
  validate_spa_channel_pair l r =
      if l.ptr == 0 || r.ptr == 0 then none else check_spa_buffer_pair (bounded l) (bounded r)

  -- How many bytes a descriptor lets the callback clear.
  abbrev pub clearable : ℕ → ℕ → ℕ
  clearable ptr bytes =
      let n = min bytes (max_bridge_buf * 4) in
      if ptr == 0 || not (multiple_of_4 ptr) || n == 0 || not (multiple_of_4 n) then 0 else n

  unfoldable pub try_zero_region : ℕ → ℕ → Memory → ℕ × Memory
  try_zero_region ptr bytes m =
      if clearable ptr bytes == 0
      then (0, m)
      else (clearable ptr bytes, zero_region ptr (clearable ptr bytes) m)

  unfoldable pub silence_spa_channels : Channel → Channel → Memory → Memory
  silence_spa_channels l r m = (try_zero_region r.ptr r.max (try_zero_region l.ptr l.max m).1).1

  unfoldable pub report_ffi_contract_violation : Channel → Channel → Host → Host
  report_ffi_contract_violation l r h = record h {
    violation = true;
    memory = silence_spa_channels l r h.memory;
  }

  abbrev pub ruled : Channel → Channel → Host → Option (ℕ × ℕ) → Option (ℕ × ℕ) × Host
  ruled l r h none = (none, report_ffi_contract_violation l r h)
  ruled l r h (some verdict) = (some verdict, h)

  unfoldable pub handle_spa_pair_fail_closed :
      Channel → ChunkPtr → Channel → ChunkPtr → Host → Option (ℕ × ℕ) × Host
  handle_spa_pair_fail_closed l chunk_l r chunk_r h =
      if is_readable chunk_l && is_readable chunk_r
      then ruled l r h (validate_spa_channel_pair l r)
      else (none, report_ffi_contract_violation l r h)

  abbrev pub resolved : Channel → Channel → Host → ChunkWindow → Option (ℕ × ℕ) × Host
  resolved l r h (valid offset size) = (some (offset, size), h)
  resolved l r h absent = (some (0, 0), h)
  resolved l r h malformed = (none, report_ffi_contract_violation l r h)

  unfoldable pub resolve_capture_chunk_window :
      ChunkPtr → Channel → Channel → Host → Option (ℕ × ℕ) × Host
  resolve_capture_chunk_window c l r h = resolved l r h (read_chunk_meta c)

  unfoldable pub silence_available_datas : List Data → Memory → List Data × Memory
  silence_available_datas [] m = ([], m)
  silence_available_datas (d ∷ ds) m =
      let zeroed = try_zero_region d.ptr d.maxsize m in
      let rest = silence_available_datas ds zeroed.1 in
      (record d { chunk = stamp_chunk zeroed.0 d.chunk } ∷ rest.0, rest.1)
