-- ===== src/Select/Finite.antt =====
-- The cursor loop ends if the server's answers do.
use arango_cpp.Base.{
  ℕ, zero, suc, ◌+◌, ◌≤◌, ◌<◌, Bool, true, false, List, [], ◌∷◌, ◌++◌, ◌≡◌, ◌≢◌, refl, arith, Text,
  lit, length, Result, ok, err, unfinished, M, and_then, ◌>>=◌, pure, if◌then◌else◌,
}
use arango_cpp.Velocypack.{VPack, Attempt, value, exception, attempt, call}
use arango_cpp.Requests.{HttpMessage, RestVerb, front, front_of, slices_of}
use arango_cpp.Requests.Slices.{Stalls, read_slices_total}
use arango_cpp.Api.{Client, new_request}
use arango_cpp.Collections.{is_error}
use arango_cpp.Select.{extract_loop, extract_data, read_batch, cursor_loop, run_request}

module _ {S : Type 0} (rank : S → ℕ) where
  -- An end other than for want of rounds, at a state of at most this rank.
  pub record EndsWithin {A : Type 0} (bound : ℕ) (x : Result A × S) : Type 0 where
    pub finished : x.0 ≢ err unfinished
    pub within : rank x.1 ≤ bound

  pub then_at-EndsWithin :
      {A B : Type 0} (bound : ℕ) (x : Result A × S) (f : A → M S B)
      → EndsWithin bound x
      → ((a : A) (s : S) → x ≡ (ok a, s) → rank s ≤ bound → EndsWithin bound (f a s))
      → EndsWithin bound (and_then x f)
  then_at-EndsWithin bound (ok a, s) f h k = k a s refl h.within
  then_at-EndsWithin bound (err e, s) f h k = record {
    finished = λ q. h.finished (ground (arith, q));
    within = h.within;
  }

  pub then-EndsWithin :
      {A B : Type 0} (bound : ℕ) (x : Result A × S) (f : A → M S B)
      → EndsWithin bound x
      → ((a : A) (s : S) → rank s ≤ bound → EndsWithin bound (f a s))
      → EndsWithin bound (and_then x f)
  then-EndsWithin bound x f h k = then_at-EndsWithin bound x f h (λ a s e l. k a s l)

  pub EndsWithin-weaken :
      {A : Type 0} (bound bound' : ℕ) (x : Result A × S)
      → EndsWithin bound x
      → bound ≤ bound'
      → EndsWithin bound' x
  EndsWithin-weaken bound bound' x h l = record {
    finished = h.finished;
    within = omega (arith, h.within, l);
  }

  pub pure-EndsWithin :
      {A : Type 0} (bound : ℕ) (a : A) (s : S) → rank s ≤ bound → EndsWithin bound (ok a, s)
  pure-EndsWithin bound a s h = record { finished = λ e. cc; within = h }

  pub attempt-EndsWithin :
      {A : Type 0} (bound : ℕ) (a : Attempt A) (s : S)
      → rank s ≤ bound
      → EndsWithin bound (attempt a, s)
  unfolding attempt
  attempt-EndsWithin bound (value a) s h = pure-EndsWithin bound a s h
  attempt-EndsWithin bound (exception what) s h = record { finished = λ e. cc; within = h }

module _ {vp : VPack} {S : Type 0} (c : Client vp S) (rank : S → ℕ)
    (visit : vp.Slice → M S (Unit {0}))
    (visit_ends : (e : vp.Slice) (s : S) → EndsWithin rank (rank s) (visit e s)) where
  extract_loop-EndsWithin :
      (bound : ℕ) (list : vp.Slice) (ii left : ℕ) (s : S)
      → rank s ≤ bound
      → EndsWithin rank bound (extract_loop c visit list ii left s)
  unfolding extract_loop
  extract_loop-EndsWithin bound list ii zero s h = pure-EndsWithin rank bound tt s h
  extract_loop-EndsWithin bound list ii (suc left) s h =
      then-EndsWithin rank bound _ _ (attempt-EndsWithin rank bound (vp.elem list ii) s h)
        (λ entry s1 h1.
          then-EndsWithin rank bound _ _
            (EndsWithin-weaken rank (rank s1) bound _ (visit_ends entry s1) h1)
            (λ u s2 h2. extract_loop-EndsWithin bound list (ii + 1) left s2 h2))

  front_of-EndsWithin :
      (bound : ℕ) (slices : List vp.Slice) (s : S)
      → rank s ≤ bound
      → EndsWithin rank bound (front_of vp slices, s)
  unfolding front_of
  front_of-EndsWithin bound [] s h = record { finished = λ e. cc; within = h }
  front_of-EndsWithin bound (slice ∷ slices) s h = pure-EndsWithin rank bound slice s h

  -- The body of a message has an end: no value in it is given the size 0.
  abbrev pub HasEnd : HttpMessage vp → Type 0
  HasEnd m = ¬ Stalls vp m.payload (length m.payload)

  front-EndsWithin :
      (bound : ℕ) (m : HttpMessage vp) (s : S)
      → HasEnd m
      → rank s ≤ bound
      → EndsWithin rank bound (front vp m s)
  unfolding front
  front-EndsWithin bound m s ends h =
      then-EndsWithin rank bound (slices_of vp m, s) _
        (record { finished = read_slices_total vp m ends; within = h })
        (λ slices s1 h1. front_of-EndsWithin bound slices s1 h1)

  -- A value of an object, read by one of the conversions.
  at-EndsWithin :
      {A : Type 0} (bound : ℕ) (slice : vp.Slice) (key : Text) (f : vp.Slice → Attempt A) (s : S)
      → rank s ≤ bound
      → EndsWithin rank bound ((call (vp.get slice key) >>= λ v. call (f v)) s)
  at-EndsWithin bound slice key f s h =
      then-EndsWithin rank bound _ _ (attempt-EndsWithin rank bound (vp.get slice key) s h)
        (λ v s1 h1. attempt-EndsWithin rank bound (f v) s1 h1)

  extract_data-EndsWithin :
      (bound : ℕ) (list : vp.Slice) (s : S)
      → rank s ≤ bound
      → EndsWithin rank bound (extract_data c visit list s)
  unfolding extract_data
  extract_data-EndsWithin bound list s h =
      then-EndsWithin rank bound _ _ (attempt-EndsWithin rank bound (vp.count list) s h)
        (λ number s1 h1. extract_loop-EndsWithin bound list 0 number s1 h1)

  read_batch-EndsWithin :
      (bound : ℕ) (m : HttpMessage vp) (s : S)
      → HasEnd m
      → rank s ≤ bound
      → EndsWithin rank bound (read_batch c visit m s)
  unfolding read_batch
  read_batch-EndsWithin bound m s ends h =
      then-EndsWithin rank bound _ _ (front-EndsWithin bound m s ends h) (λ slice s1 h1.
        then-EndsWithin rank bound _ _ (at-EndsWithin bound slice (lit "hasMore") vp.get_bool s1 h1)
          (λ left s2 h2.
            then-EndsWithin rank bound _ _
              (attempt-EndsWithin rank bound (vp.get slice (lit "result")) s2 h2)
              (λ found s3 h3.
                then-EndsWithin rank bound _ _ (extract_data-EndsWithin bound found s3 h3)
                  (λ u s4 h4. pure-EndsWithin rank bound (slice, left) s4 h4))))

  module _ (sends : (m : HttpMessage vp) (s : S) → EndsWithin rank (rank s) (c.send m s))
      (whole : (m : HttpMessage vp) (s s' : S) (result : HttpMessage vp)
        → c.send m s ≡ (ok result, s')
        → HasEnd result)
      (uses : (id : Text) (s s' : S) (result : HttpMessage vp)
        → c.send (new_request c RestVerb.put (lit "/_api/cursor/" ++ id)) s ≡ (ok result, s')
        → is_error vp result ≡ false
        → rank s' < rank s) where
    -- What comes after an answer: nothing if it is an error.
    unless-EndsWithin :
        (bound : ℕ) (refused : Bool) (k : M S (Unit {0})) (s : S)
        → rank s ≤ bound
        → (refused ≡ false → EndsWithin rank bound (k s))
        → EndsWithin rank bound ((if refused then pure tt else k) s)
    unless-EndsWithin bound true k s h f = pure-EndsWithin rank bound tt s h
    unless-EndsWithin bound false k s h f = f refl

    cursor_loop-EndsWithin :
        (bound fuel : ℕ) (slice : vp.Slice) (left : Bool) (s : S)
        → rank s ≤ bound
        → bound < fuel
        → EndsWithin rank bound (cursor_loop c visit fuel (slice, left) s)
    unfolding cursor_loop
    cursor_loop-EndsWithin bound zero slice left s h l = absurd (omega (arith, l))
    cursor_loop-EndsWithin bound (suc fuel) slice false s h l = pure-EndsWithin rank bound tt s h
    cursor_loop-EndsWithin bound (suc fuel) slice true s h l =
        then-EndsWithin rank bound _ _ (at-EndsWithin bound slice (lit "id") vp.copy_string s h)
          (λ id s1 h1.
            then_at-EndsWithin rank bound _ _
              (EndsWithin-weaken rank (rank s1) bound _
                (sends (new_request c RestVerb.put (lit "/_api/cursor/" ++ id)) s1) h1)
              (λ result s2 sent h2.
                unless-EndsWithin bound (is_error vp result) _ s2 h2 (λ accepted.
                  let less = uses id s1 s2 result sent accepted in
                  EndsWithin-weaken rank (rank s2) bound _
                    (then-EndsWithin rank (rank s2) _ _
                      (read_batch-EndsWithin (rank s2) result s2 (whole _ s1 s2 result sent)
                        (omega arith))
                      (λ next s3 h3.
                        cursor_loop-EndsWithin (rank s2) fuel next.0 next.1 s3 h3
                          (omega (arith, less, h1, l))))
                    h2)))

    -- Where the bodies of all answers have an end, whatever else they hold, no request lets the measure grow, every request for a further
    -- page that is answered without an error lets it shrink, and the callback ends and does not
    -- let it grow, a run ends within one more round than the measure at its start, and the measure
    -- has not grown.
    pub run_request-EndsWithin :
        (fuel : ℕ) (request : HttpMessage vp) (s : S)
        → rank s < fuel
        → EndsWithin rank (rank s) (run_request c visit fuel request s)
    unfolding run_request
    run_request-EndsWithin fuel request s l =
        then_at-EndsWithin rank (rank s) _ _ (sends request s) (λ result s1 sent h1.
          unless-EndsWithin (rank s) (is_error vp result) _ s1 h1 (λ accepted.
            then-EndsWithin rank (rank s) _ _
              (read_batch-EndsWithin (rank s) result s1 (whole request s s1 result sent) h1)
              (λ next s2 h2. cursor_loop-EndsWithin (rank s) fuel next.0 next.1 s2 h2 l)))
