-- ===== src/Requests/Slices.antt =====
-- The body of a message as a sequence of Velocypack values (`addVPack`, `slices`).
use mathlib.Core.List.{concat-ne-nil}
use arango_cpp.Base.{
  ℕ, zero, suc, ◌+◌, ◌-◌, ◌<◌, ◌≤◌, false, List, [], ◌∷◌, ◌++◌, append-nil, append_assoc, ◌≡◌, ◌≢◌,
  refl, sym, ap, ◌∙◌, arith, Text, Bool-cases, inl, inr, ltb, ◌==◌, length, drop, drop-append,
  length-append, ℤ, ok, err, arango, unfinished,
}
use arango_cpp.Velocypack.{VPack, IsLawful}
use arango_cpp.Requests.{HttpMessage, add_vpack, slices_loop, scan_slices, read_slices}

module _ (vp : VPack) where
  -- The encodings of the values one behind the other.
  unfoldable pub encoded : List vp.Slice → Text
  encoded [] = []
  encoded (s ∷ ss) = vp.bytes s ++ encoded ss

  encoded-append : (ss ts : List vp.Slice) → encoded (ss ++ ts) ≡ encoded ss ++ encoded ts
  unfolding encoded
  encoded-append [] ts = refl
  encoded-append (s ∷ ss) ts = simp (encoded-append ss, append_assoc)

  -- The message with the values added in turn.
  pub add_all : HttpMessage vp → List vp.Slice → HttpMessage vp
  add_all m [] = m
  add_all m (s ∷ ss) = add_all (add_vpack vp m s) ss

  -- Behind values that fit in what is left, the bytes hold one whose size is given as 0.
  pub data Stalls : Text → ℕ → Type 0 where
    here :
        {cursor : Text} {left : ℕ}
        → 0 < left
        → vp.byte_size (vp.at_cursor cursor) ≡ 0
        → Stalls cursor left
    behind :
        {cursor : Text} {left : ℕ}
        → 0 < left
        → vp.byte_size (vp.at_cursor cursor) ≤ left
        → Stalls
            (drop (vp.byte_size (vp.at_cursor cursor)) cursor)
            (left - vp.byte_size (vp.at_cursor cursor))
        → Stalls cursor left

  -- A round at a value that lies within what is left.
  slices_step :
      (fuel : ℕ) (cursor : Text) (left : ℕ) (found : List vp.Slice)
      → (left == 0) ≡ false
      → ltb left (vp.byte_size (vp.at_cursor cursor)) ≡ false
      → slices_loop vp (suc fuel) cursor left found
        ≡ slices_loop vp fuel
            (drop (vp.byte_size (vp.at_cursor cursor)) cursor)
            (left - vp.byte_size (vp.at_cursor cursor))
            (found ++ vp.at_cursor cursor ∷ [])
  unfolding slices_loop
  slices_step fuel cursor left found p q = rw (p, q) refl

  module _ (L : IsLawful vp) where
    slices_loop-cons :
        (fuel : ℕ) (s : vp.Slice) (rest : Text) (found : List vp.Slice)
        → slices_loop vp (suc fuel) (vp.bytes s ++ rest) (length (vp.bytes s ++ rest)) found
          ≡ slices_loop vp fuel rest (length rest) (found ++ s ∷ [])
    slices_loop-cons fuel s rest found =
        let size = length-append (vp.bytes s) rest in
        let same = L.byte_size-length s in
        slices_step fuel (vp.bytes s ++ rest) (length (vp.bytes s ++ rest)) found
          (ground (arith, size, same, L.byte_size_pos s))
          (rw (L.at_cursor-bytes s rest) (ground (arith, size, same)))
        ∙ rw (L.at_cursor-bytes s rest, same, drop-append (vp.bytes s) rest, size)
            (ap (λ n. slices_loop vp fuel rest n (found ++ s ∷ [])) (omega arith))

    encoded-shorter :
        (s : vp.Slice) (ss : List vp.Slice) → length (encoded ss) < length (encoded (s ∷ ss))
    unfolding encoded
    encoded-shorter s ss = omega (
      arith,
      length-append {0} (vp.bytes s) (encoded ss),
      L.byte_size_pos s,
      L.byte_size-length s,
    )

    slices_loop-encoded :
        (fuel : ℕ) (ss found : List vp.Slice)
        → length (encoded ss) < fuel
        → slices_loop vp fuel (encoded ss) (length (encoded ss)) found ≡ (ok tt, found ++ ss)
    unfolding encoded
    slices_loop-encoded zero ss found h = absurd (omega arith)
    slices_loop-encoded (suc fuel) [] found h =
        unfold slices_loop in ap (λ l. (ok tt, l)) (sym (append-nil found))
    slices_loop-encoded (suc fuel) (s ∷ ss) found h =
        slices_loop-cons fuel s (encoded ss) found
        ∙ slices_loop-encoded fuel ss (found ++ s ∷ []) (omega (arith, encoded-shorter s ss))
        ∙ ap (λ l. (ok tt, l)) (append_assoc found (s ∷ []) ss)

    -- What a message holds after `addVPack`: the old payload and the bytes of the value.
    pub add_vpack-payload :
        (m : HttpMessage vp) (s : vp.Slice) (before : Text)
        → m.payload ≡ before
        → m.payload_length ≡ length before
        → ((add_vpack vp m s).payload ≡ before ++ vp.bytes s)
          × ((add_vpack vp m s).payload_length ≡ length (before ++ vp.bytes s))
          × ((add_vpack vp m s).slices ≡ [])
    unfolding add_vpack
    add_vpack-payload m s before e h =
        let size : m.payload_length + vp.byte_size s ≡ length (before ++ vp.bytes s) =
          omega (arith, h, length-append {0} before (vp.bytes s), L.byte_size-length s) in
        (rw (size, e) (L.reset_to_same _), size, refl)

    add_all-payload :
        (m : HttpMessage vp) (ss : List vp.Slice) (before : Text)
        → m.payload ≡ before
        → m.payload_length ≡ length before
        → m.slices ≡ []
        → ((add_all m ss).payload ≡ before ++ encoded ss) × ((add_all m ss).slices ≡ [])
    unfolding add_all encoded
    add_all-payload m [] before e h c = (e ∙ sym (append-nil before), c)
    add_all-payload m (s ∷ ss) before e h c =
        let (p, q, r) = add_vpack-payload m s before e h in
        let (p', r') = add_all-payload (add_vpack vp m s) ss (before ++ vp.bytes s) p q r in
        (p' ∙ append_assoc before (vp.bytes s) (encoded ss), r')

    pub read_slices-encoded :
        (m : HttpMessage vp) (ss : List vp.Slice)
        → m.payload ≡ encoded ss
        → m.slices ≡ []
        → (read_slices vp m).0 ≡ ok ss
    unfolding read_slices scan_slices
    read_slices-encoded m ss e c =
        rw (e, c, slices_loop-encoded (suc (length (encoded ss))) ss [] (omega arith)) refl

    -- The values that were added to a fresh message are its slices, in the order of the calls.
    pub read_slices-add_all :
        (m : HttpMessage vp) (ss : List vp.Slice)
        → m.payload ≡ []
        → m.payload_length ≡ 0
        → m.slices ≡ []
        → (read_slices vp (add_all m ss)).0 ≡ ok ss
    read_slices-add_all m ss e h c =
        let (p, q) = add_all-payload m ss [] e h c in read_slices-encoded (add_all m ss) ss p q

  pub never_Stalls :
      ((s : vp.Slice) → vp.byte_size s ≢ 0) → {cursor : Text} {left : ℕ} → ¬ Stalls cursor left
  never_Stalls sized (here p z) = sized _ z
  never_Stalls sized (behind p l rest) = never_Stalls sized rest

  -- A round at a value of size 0 takes nothing off.
  stalled_lem :
      (fuel : ℕ) (cursor : Text) (left : ℕ) (found : List vp.Slice)
      → 0 < left
      → vp.byte_size (vp.at_cursor cursor) ≡ 0
      → (slices_loop vp fuel cursor left found).0 ≡ err unfinished
  unfolding slices_loop
  stalled_lem zero cursor left found p z = refl
  stalled_lem (suc fuel) cursor left found p z =
      ap (λ x. x.0) (slices_step fuel cursor left found (ground (arith, p)) (ground (arith, z)))
      ∙ ap
          (λ n.
            (slices_loop vp fuel (drop n cursor) (left - n) (found ++ vp.at_cursor cursor ∷ [])).0)
          z
      ∙ ap (λ n. (slices_loop vp fuel cursor n (found ++ vp.at_cursor cursor ∷ [])).0) (omega arith)
      ∙ stalled_lem fuel cursor left (found ++ vp.at_cursor cursor ∷ []) p z

  stalls_unfinished :
      (fuel : ℕ) (cursor : Text) (left : ℕ) (found : List vp.Slice)
      → Stalls cursor left
      → (slices_loop vp fuel cursor left found).0 ≡ err unfinished
  stalls_unfinished fuel cursor left found (here p z) = stalled_lem fuel cursor left found p z
  stalls_unfinished zero cursor left found (behind p l rest) = unfold slices_loop in refl
  stalls_unfinished (suc fuel) cursor left found (behind p l rest) =
      ap (λ x. x.0) (slices_step fuel cursor left found (ground (arith, p)) (ground (arith, l)))
      ∙ stalls_unfinished fuel _ _ _ rest

  -- A loop that has had a round for each byte that is left, and one more, has met such a value.
  unfinished_stalls :
      (fuel : ℕ) (cursor : Text) (left : ℕ) (found : List vp.Slice)
      → left < fuel
      → (slices_loop vp fuel cursor left found).0 ≡ err unfinished
      → Stalls cursor left
  unfolding slices_loop
  unfinished_stalls zero cursor left found h e = absurd (omega arith)
  unfinished_stalls (suc fuel) cursor left found h e =
      let size = vp.byte_size (vp.at_cursor cursor) in
      elim (Bool-cases (left == 0)) [
        | inl z ↦ absurd (ground (arith, e, z))
        | inr z ↦ elim (Bool-cases (ltb left size)) [
          | inl l ↦ absurd (ground (arith, e, z, l))
          | inr l ↦ elim (Bool-cases (size == 0)) [
            | inl n ↦ here (ground (arith, z)) (ground (arith, n))
            | inr n ↦ behind (ground (arith, z)) (ground (arith, l)) (
                unfinished_stalls fuel _ _ (found ++ vp.at_cursor cursor ∷ [])
                  (ground (arith, h, n)) (ground (arith, e, z, l)))
          ]
        ]
      ]

  -- A cache does not stall.
  pub read_slices_total :
      (m : HttpMessage vp)
      → ¬ Stalls m.payload (length m.payload)
      → (read_slices vp m).0 ≢ err unfinished
  unfolding read_slices scan_slices
  read_slices_total m h =
      let ends : (slices_loop vp (suc (length m.payload)) m.payload (length m.payload) []).0
          ≢ err unfinished =
        λ e. h (
          unfinished_stalls (suc (length m.payload)) m.payload (length m.payload) [] (omega arith)
            e) in
      ground (arith, ends)

  -- A call of `slices()` on a message that it has not been called on never ends, however many
  -- rounds its loop has, if the payload, behind values that fit, holds one whose size is given as
  -- 0; and it ends in all other cases, within a round for each byte and one more.
  pub read_slices_ends_iff :
      (m : HttpMessage vp)
      → m.slices ≡ []
      → (Stalls m.payload (length m.payload)
          → (fuel : ℕ) → (slices_loop vp fuel m.payload (length m.payload) []).0 ≡ err unfinished)
        × (¬ Stalls m.payload (length m.payload) → (read_slices vp m).0 ≢ err unfinished)
  read_slices_ends_iff m c = (
    λ stalls fuel. stalls_unfinished fuel m.payload (length m.payload) [] stalls,
    read_slices_total m,
  )

  slices_loop_throw :
      (fuel : ℕ) (cursor : Text) (left : ℕ) (found : List vp.Slice) (title : Text) (id : ℤ)
      (message : Text)
      → (slices_loop vp fuel cursor left found).0 ≡ err (arango title id message)
      → (slices_loop vp fuel cursor left found).1 ≢ []
  unfolding slices_loop
  slices_loop_throw zero cursor left found t i m h = absurd (ground arith)
  slices_loop_throw (suc fuel) cursor left found t i m h =
      let slice = vp.at_cursor cursor in
      ground (
        arith,
        concat-ne-nil slice found,
        slices_loop_throw fuel (drop (vp.byte_size slice) cursor) (left - vp.byte_size slice)
            (found ++ slice ∷ []) t i m,
      )

  -- A second call of `slices()` returns what the first one returned.
  pub read_slices_twice :
      (m : HttpMessage vp) {ss : List vp.Slice}
      → (read_slices vp m).0 ≡ ok ss
      → (read_slices vp (read_slices vp m).1).0 ≡ ok ss
  unfolding read_slices
  read_slices_twice m h = ground arith

  scan_throw :
      (payload title : Text) (id : ℤ) (message : Text)
      → (scan_slices vp payload).0 ≡ err (arango title id message)
      → (scan_slices vp payload).1 ≢ []
  unfolding scan_slices
  scan_throw payload title id message =
      slices_loop_throw (suc (length payload)) payload (length payload) [] title id message

  -- After a call that threw "Invalid buffer" a second one does not throw: it returns the slices
  -- found so far, the one that did not fit included.
  pub read_slices_after_throw :
      (m : HttpMessage vp) {title message : Text} {id : ℤ}
      → (read_slices vp m).0 ≡ err (arango title id message)
      → (ss : List vp.Slice) × ((read_slices vp (read_slices vp m).1).0 ≡ ok ss) × (ss ≢ [])
  unfolding read_slices
  read_slices_after_throw m {title} {message} {id} h = (
    (scan_slices vp m.payload).1,
    ground (arith, scan_throw m.payload title id message),
    ground (arith, scan_throw m.payload title id message),
  )
