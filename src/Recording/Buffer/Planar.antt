-- ===== src/Recording/Buffer/Planar.antt =====
-- src/recording/buffer.rs: what `fill_planar` leaves in a block, and that the slices of a filled
-- block never reach a place that was not written.
use mathlib.Core.List.{map-append, append_assoc, append-nil}
use mathlib.Core.Option.{some-injective}
use native.Mathlib.Omega.{arith}
use nam_audio_pipe.Base.{
  ℕ, ◌+◌, ◌-◌, ◌*◌, ◌/◌, ◌≤◌, ◌≡◌, refl, sym, ap, ◌∙◌, suc, List, [], ◌∷◌, ◌++◌, map, Option, none,
  some, min, inl, inr, Option-cases, length, take, drop, length-append, length-take, length-map,
  take-append_lem, drop-append_lem, length-drop, drop-take,
}
use nam_audio_pipe.Recording.Buffer.{
  AlignedBlock, fill_frames, fill_planar, assume_init, as_slice, frames, left_slice, right_slice,
}

assume_init-map-some : (xs : List ℕ) → assume_init (map some xs) ≡ some xs
unfolding assume_init
assume_init-map-some [] = refl
assume_init-map-some (x ∷ xs) = rw (assume_init-map-some xs) refl

module _ (b : AlignedBlock) (left right : List ℕ) where
  abbrev pub taken : ℕ
  taken = fill_frames (length b.cells) left right

  abbrev pub lefts : List ℕ
  lefts = take taken left

  abbrev pub rights : List ℕ
  rights = take taken right

  abbrev rest : List (Option ℕ)
  rest = drop (length rights) (drop taken b.cells)

  length-lefts : length lefts ≡ taken
  length-lefts = omega (arith, length-take taken left)

  length-rights : length rights ≡ taken
  length-rights = omega (arith, length-take taken right)

  tail-empty : drop (length lefts) (take taken b.cells) ≡ []
  tail-empty = rw (length-lefts, drop-take taken b.cells) refl

  -- The written samples stand first, in one run, and the rest of the array is as it was.
  cells-fill : (fill_planar b left right).cells ≡ map some (lefts ++ rights) ++ rest
  unfolding fill_planar
  cells-fill =
      rw (tail-empty, append-nil, map-append)
        (sym (append_assoc (map some lefts) (map some rights) rest))

  valid_len-fill : (fill_planar b left right).valid_len ≡ length lefts + length rights
  unfolding fill_planar
  valid_len-fill = refl

  pub length-fill : length (fill_planar b left right).cells ≡ length b.cells
  length-fill = omega (
    arith,
    ap length cells-fill,
    length-append (map some (lefts ++ rights)) rest,
    length-map (lefts ++ rights) some,
    length-append lefts rights,
    length-drop (length rights) (drop taken b.cells),
    length-drop taken b.cells,
    length-lefts,
    length-rights,
  )

  -- `fill_planar` publishes twice the frames that both channels and half the block hold, so never
  -- more samples than the block has places.
  pub fill_planar-valid_len :
      ((fill_planar b left right).valid_len
        ≡ 2 * min (min (length left) (length right)) (length b.cells / 2))
      × ((fill_planar b left right).valid_len ≤ length b.cells)
  fill_planar-valid_len = omega (arith, valid_len-fill, length-lefts, length-rights)

  -- Whatever the block held before, the valid region of a filled block is the left channel's frames
  -- and then the right channel's, with no place in it that was not written.
  pub as_slice-fill : as_slice (fill_planar b left right) ≡ some (lefts ++ rights)
  unfolding as_slice
  as_slice-fill = rw (
    cells-fill,
    take-append_lem (fill_planar b left right).valid_len (map some (lefts ++ rights)) rest (
        omega
          (arith, valid_len-fill, length-map (lefts ++ rights) some, length-append lefts rights)),
    assume_init-map-some (lefts ++ rights),
  )

  frames-fill : frames (fill_planar b left right) ≡ taken
  unfolding frames
  frames-fill = omega (arith, valid_len-fill, length-lefts, length-rights)

  -- The two channel views of a filled block are the frames of the two channels.
  channels-fill :
      (left_slice (fill_planar b left right) ≡ some lefts)
      × (right_slice (fill_planar b left right) ≡ some rights)
  unfolding left_slice right_slice
  channels-fill = (
    rw (
      frames-fill,
      cells-fill,
      map-append,
      append_assoc,
      take-append_lem taken (map some lefts) (map some rights ++ rest)
          (omega (arith, length-map lefts some, length-lefts)),
      assume_init-map-some lefts,
    ),
    rw (
      frames-fill,
      cells-fill,
      map-append,
      append_assoc,
      drop-append_lem taken (map some lefts) (map some rights ++ rest)
          (omega (arith, length-map lefts some, length-lefts)),
      take-append_lem (2 * taken - taken) (map some rights) rest
          (omega (arith, length-map rights some, length-rights)),
      assume_init-map-some rights,
    ),
  )

length-assume_init :
    (cs : List (Option ℕ)) (xs : List ℕ) → assume_init cs ≡ some xs → length xs ≡ length cs
unfolding assume_init
length-assume_init [] xs e = sym (ap length (some-injective _ _ e))
length-assume_init (none ∷ cs) xs e = cc
length-assume_init (some x ∷ cs) xs e = elim (Option-cases (assume_init cs)) [
  | inl c ↦ cc (rw c at e)
  | inr (ys, c) ↦
      sym (ap length (some-injective _ _ (rw c at e))) ∙ ap suc (length-assume_init cs ys c)
]

-- A block that reads at all reads as its whole valid region.
pub length-as_slice :
    (b : AlignedBlock) (xs : List ℕ)
    → as_slice b ≡ some xs
    → length xs ≡ min b.valid_len (length b.cells)
unfolding as_slice
length-as_slice b xs e =
    length-assume_init (take b.valid_len b.cells) xs e ∙ length-take b.valid_len b.cells
