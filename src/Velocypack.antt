-- ===== src/Velocypack.antt =====
-- The part of the Velocypack library that the code calls: a third-party library, so a parameter.
use arango_cpp.Base.{
  ℕ, ◌<◌, Bool, List, ◌++◌, ◌≡◌, refl, ◌⊎◌, inl, inr, Text, ℤ, Result, ok, err, velocypack, M, lift,
  ◌>>=◌, length,
}

-- What a call of Velocypack gives: a value, or a `velocypack::Exception` with its message.
pub data Attempt (A : Type 0) : Type 0 where
  value : A → Attempt A
  exception : Text → Attempt A

pub Attempt-cases :
    {A : Type 0} (a : Attempt A)
    → ((x : A) × (a ≡ value x)) ⊎ ((what : Text) × (a ≡ exception what))
Attempt-cases (value x) = inl (x, refl)
Attempt-cases (exception what) = inr (what, refl)

-- `Slice`, `Parser`, `Builder` and `Buffer`. A document that the code puts together by a `Builder`
-- is one of the last five fields; the bytes of a slice are its encoding, and `at_cursor` is the
-- slice that a pointer to encoded bytes stands for.
pub record VPack : Type 1 where
  pub Slice : Type 0
  pub from_json : Text → Attempt Slice
  pub to_json : Slice → Attempt Text
  pub is_none : Slice → Bool
  pub is_object : Slice → Bool
  pub has_key : Slice → Text → Attempt Bool
  pub get : Slice → Text → Attempt Slice
  pub get_int : Slice → Attempt ℤ
  pub get_bool : Slice → Attempt Bool
  pub copy_string : Slice → Attempt Text
  pub count : Slice → Attempt ℕ
  pub elem : Slice → ℕ → Attempt Slice
  pub key_at : Slice → ℕ → Attempt Slice
  pub value_at : Slice → ℕ → Attempt Slice
  pub bytes : Slice → Text
  pub byte_size : Slice → ℕ
  pub at_cursor : Text → Slice
  pub reset_to : Text → ℕ → Text
  pub of_string : Text → Slice
  pub of_bool : Bool → Slice
  pub of_int : ℤ → Slice
  pub of_array : List Slice → Slice
  pub of_object : List (Text × Slice) → Slice

-- What is documented of the encoding of values, for a `Slice` that is always one, and never what is
-- read at other bytes: a value takes at least one byte, its size is that of its
-- encoding, reading at an encoding gives the value back whatever follows it, and `resetTo` at the
-- size of a buffer keeps its contents.
pub record IsLawful (vp : VPack) : Type 0 where
  pub byte_size_pos : (s : vp.Slice) → 0 < vp.byte_size s
  pub byte_size-length : (s : vp.Slice) → vp.byte_size s ≡ length (vp.bytes s)
  pub at_cursor-bytes : (s : vp.Slice) (rest : Text) → vp.at_cursor (vp.bytes s ++ rest) ≡ s
  pub reset_to_same : (buffer : Text) → vp.reset_to buffer (length buffer) ≡ buffer

-- A call of Velocypack inside an operation: its exception is thrown.
unfoldable pub attempt : {A : Type 0} → Attempt A → Result A
attempt (value a) = ok a
attempt (exception what) = err (velocypack what)

abbrev pub call : {S A : Type 0} → Attempt A → M S A
call a = lift (attempt a)

module _ (vp : VPack) where
  -- `slice.get(key).copyString()`, and the same with the other two conversions
  abbrev pub string_at : {S : Type 0} → vp.Slice → Text → M S Text
  string_at slice key = do v ← call (vp.get slice key); call (vp.copy_string v)

  abbrev pub int_at : {S : Type 0} → vp.Slice → Text → M S ℤ
  int_at slice key = do v ← call (vp.get slice key); call (vp.get_int v)

  abbrev pub bool_at : {S : Type 0} → vp.Slice → Text → M S Bool
  bool_at slice key = do v ← call (vp.get slice key); call (vp.get_bool v)
