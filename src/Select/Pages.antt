-- ===== src/Select/Pages.antt =====
-- The cursor loop of `selectQuery` and `selectAll` for any callback, one that throws included.
use mathlib.Core.List.{flatten}
use arango_cpp.Base.{
  ℕ, zero, suc, ◌+◌, ◌≤◌, Bool, true, false, List, [], ◌∷◌, ◌++◌, ◌≡◌, refl, arith, Text, lit,
  length, Fault, Result, ok, err, M, and_then, ◌>>◌, pure,
}
use arango_cpp.Velocypack.{VPack, value, attempt}
use arango_cpp.Requests.{HttpMessage, RestVerb, slices_of, front}
use arango_cpp.Api.{Client, new_request}
use arango_cpp.Collections.{is_error}
use arango_cpp.Select.{
  lift_client, extract_loop, extract_data, read_batch, cursor_loop, run_request,
}

module _ (vp : VPack) {A : Type 0} (Fits : vp.Slice → A → Type 0) where
  -- From index `ii` on a list holds entries that fit these documents.
  abbrev pub ListedAs : vp.Slice → ℕ → List A → Type 0
  ListedAs list ii [] = Unit
  ListedAs list ii (d ∷ ds) =
      ((e : vp.Slice) × (vp.elem list ii ≡ value e) × Fits e d) × ListedAs list (ii + 1) ds

  -- An answer of the server that is one page of a result: its documents, and whether there are
  -- more.
  pub record PageAs (result : HttpMessage vp) (more : Bool) (docs : List A) : Type 0 where
    pub accepted : is_error vp result ≡ false
    pub slice : vp.Slice
    pub others : List vp.Slice
    pub answered : slices_of vp result ≡ ok (slice ∷ others)
    pub flag : vp.Slice
    pub get_flag : vp.get slice (lit "hasMore") ≡ value flag
    pub flag_value : vp.get_bool flag ≡ value more
    pub found : vp.Slice
    pub get_found : vp.get slice (lit "result") ≡ value found
    pub number : vp.count found ≡ value (length docs)
    pub entries : ListedAs found 0 docs

  -- A page that says where the next one is. The server says so only if there are more.
  pub record Leads (slice : vp.Slice) (id : Text) : Type 0 where
    pub label : vp.Slice
    pub get_label : vp.get slice (lit "id") ≡ value label
    pub label_value : vp.copy_string label ≡ value id

module _ {vp : VPack} {S A : Type 0} (Fits : vp.Slice → A → Type 0) (c : Client vp S) where
  -- The server answers a request, and then the requests for the further pages, with these pages.
  -- It may also answer with an error status, which ends the result.
  pub data ServesAs : HttpMessage vp → S → List (List A) → S → Type 0 where
    refused :
        {request result : HttpMessage vp} {s s' : S}
        → c.send request s ≡ (ok result, s')
        → is_error vp result ≡ true
        → ServesAs request s [] s'
    last :
        {request result : HttpMessage vp} {s s' : S} {docs : List A}
        → c.send request s ≡ (ok result, s')
        → PageAs vp Fits result false docs
        → ServesAs request s (docs ∷ []) s'
    more :
        {request result : HttpMessage vp} {s t s' : S} {id : Text} {docs : List A}
        {pages : List (List A)}
        → c.send request s ≡ (ok result, t)
        → (p : PageAs vp Fits result true docs) → Leads vp Fits p.slice id
        → ServesAs (new_request c RestVerb.put (lit "/_api/cursor/" ++ id)) t pages s'
        → ServesAs request s (docs ∷ pages) s'

-- One pass over documents: each is handed on in turn, until an exception.
unfoldable pub deliver : {A D : Type 0} → (A → M D (Unit {0})) → List A → M D (Unit {0})
deliver f [] = pure tt
deliver f (a ∷ xs) = f a >> deliver f xs

module _ {A D : Type 0} (f : A → M D (Unit {0})) where
  deliver-then :
      (x : Result (Unit {0}) × D) (xs ys : List A)
      → ((d : D) → deliver f (xs ++ ys) d ≡ and_then (deliver f xs d) (λ _. deliver f ys))
      → and_then x (λ _. deliver f (xs ++ ys))
        ≡ and_then (and_then x (λ _. deliver f xs)) (λ _. deliver f ys)
  deliver-then (ok u, d) xs ys ih = ih d
  deliver-then (err e, d) xs ys ih = refl

  pub deliver-append :
      (xs ys : List A) (d : D)
      → deliver f (xs ++ ys) d ≡ and_then (deliver f xs d) (λ _. deliver f ys)
  unfolding deliver
  deliver-append [] ys d = refl
  deliver-append (a ∷ xs) ys d = deliver-then (f a d) xs ys (deliver-append xs ys)

module _ {S D : Type 0} where
  -- An outcome on the callback's own state, beside a state of the server.
  abbrev pub beside : S → Result (Unit {0}) × D → Result (Unit {0}) × (S × D)
  beside s (r, d) = (r, (s, d))

  -- A run ends as a pass does, at this state of the server if the pass has not thrown.
  pub data Ends (s' : S) : Result (Unit {0}) × D → Result (Unit {0}) × (S × D) → Type 0 where
    done : (d : D) → Ends s' (ok tt, d) (ok tt, (s', d))
    threw : (e : Fault) (d : D) (t : S) → Ends s' (err e, d) (err e, (t, d))

  -- A run of a pass that throws nothing.
  pub Ends-ok :
      {s' : S} {x : Result (Unit {0}) × D} {y : Result (Unit {0}) × (S × D)} {d : D}
      → Ends s' x y
      → x ≡ (ok tt, d)
      → y ≡ (ok tt, (s', d))
  Ends-ok (done d') e = ground (arith, e)
  Ends-ok (threw f d' t) e = absurd (ground (arith, e))

  then-beside :
      (s : S) (x : Result (Unit {0}) × D) (k : M (S × D) (Unit {0})) (k' : M D (Unit {0}))
      → ((d : D) → k (s, d) ≡ beside s (k' d))
      → and_then (beside s x) (λ _. k) ≡ beside s (and_then x (λ _. k'))
  then-beside s (ok u, d) k k' h = h d
  then-beside s (err e, d) k k' h = refl

module _ {vp : VPack} {S A D : Type 0} (Fits : vp.Slice → A → Type 0) (c : Client vp S)
    (visit : vp.Slice → M (S × D) (Unit {0})) (f : A → M D (Unit {0}))
    (visit_lem : (e : vp.Slice) (a : A) (s : S) (d : D)
      → Fits e a
      → visit e (s, d) ≡ beside s (f a d)) where
  abbrev pub lifted : Client vp (S × D)
  lifted = lift_client D c

  pub extract_loop-ListedAs :
      (list : vp.Slice) (ii : ℕ) (docs : List A) (s : S) (d : D)
      → ListedAs vp Fits list ii docs
      → extract_loop lifted visit list ii (length docs) (s, d) ≡ beside s (deliver f docs d)
  unfolding extract_loop deliver attempt
  extract_loop-ListedAs list ii [] s d h = refl
  extract_loop-ListedAs list ii (x ∷ docs) s d ((e, he, hx), hs) =
      rw (he, visit_lem e x s d hx)
        (then-beside s (f x d) (extract_loop lifted visit list (ii + 1) (length docs))
          (deliver f docs) (λ d'. extract_loop-ListedAs list (ii + 1) docs s d' hs))

  -- A page is passed over once.
  read_batch-PageAs :
      (result : HttpMessage vp) (left : Bool) (docs : List A) (s : S) (d : D)
      (p : PageAs vp Fits result left docs)
      → read_batch lifted visit result (s, d)
        ≡ and_then (beside s (deliver f docs d)) (λ _. pure (p.slice, left))
  unfolding read_batch attempt front extract_data
  read_batch-PageAs result left docs s d p =
      rw (p.answered, p.get_flag, p.flag_value, p.get_found, p.number)
        (rw (extract_loop-ListedAs p.found 0 docs s d p.entries) refl)

  -- The end of a run that has gone over a page: an exception stops it, else what follows decides.
  Ends-then :
      (t s' : S) (x : Result (Unit {0}) × D) (k : M (S × D) (Unit {0})) (k' : M D (Unit {0}))
      → ((d : D) → Ends s' (k' d) (k (t, d)))
      → Ends s' (and_then x (λ _. k')) (and_then (beside t x) (λ _. k))
  Ends-then t s' (ok u, d) k k' h = h d
  Ends-then t s' (err e, d) k k' h = threw e d t

  then_assoc :
      {B : Type 0} (t : S) (x : Result (Unit {0}) × D) (b : B) (k : B → M (S × D) (Unit {0}))
      → and_then (and_then (beside t x) (λ _. pure b)) k ≡ and_then (beside t x) (λ _. k b)
  then_assoc t (ok u, d) b k = refl
  then_assoc t (err e, d) b k = refl

  -- A page in the middle: the loop asks for the next one, at the id that the page gives.
  cursor_step :
      (result : HttpMessage vp) (id : Text) (docs : List A) (p : PageAs vp Fits result true docs)
      (place : Leads vp Fits p.slice id) (fuel : ℕ) (s : S) (d : D)
      → cursor_loop lifted visit (suc fuel) (p.slice, true) (s, d)
        ≡ run_request lifted visit fuel
            (new_request c RestVerb.put (lit "/_api/cursor/" ++ id))
            (s, d)
  unfolding cursor_loop run_request attempt
  cursor_step result id docs p place fuel s d = rw (place.get_label, place.label_value) refl

  cursor_end :
      (fuel : ℕ) (slice : vp.Slice) (s : S) (d : D)
      → cursor_loop lifted visit fuel (slice, false) (s, d) ≡ (ok tt, (s, d))
  unfolding cursor_loop
  cursor_end fuel slice s d = refl

  deliver-last :
      (docs : List A) (d : D)
      → deliver f (docs ++ []) d ≡ and_then (deliver f docs d) (λ _. deliver f [])
  deliver-last docs d = deliver-append f docs [] d

  -- A run goes over all documents of all pages once, in order, as one pass does, and ends as that
  -- pass: an exception of the callback stops it at once, and what the callback has done stays. If
  -- it throws nothing, the run ends after exactly the requests of the pages. One round for each
  -- further page is enough.
  pub run_request-ServesAs :
      {request : HttpMessage vp} {s s' : S} (pages : List (List A)) (fuel : ℕ) (d : D)
      → ServesAs Fits c request s pages s'
      → length pages ≤ fuel
      → Ends s' (deliver f (flatten pages) d) (run_request lifted visit fuel request (s, d))
  unfolding run_request flatten
  run_request-ServesAs pages fuel d (refused {request} {s} {s'} sent e) h =
      unfold deliver in rw (sent, e) (done d)
  run_request-ServesAs pages fuel d (last {result} {s} {s'} {docs} sent p) h =
      rw
        (
          sent,
          p.accepted,
          read_batch-PageAs result false docs s' d p,
          deliver-last docs d,
          then_assoc s' (deliver f docs d) (p.slice, false) (cursor_loop lifted visit fuel),
        )
        (Ends-then s' s' (deliver f docs d) (cursor_loop lifted visit fuel (p.slice, false))
          (deliver f []) (λ d'. unfold cursor_loop deliver in done d'))
  run_request-ServesAs pages zero d (more sent p place rest) h = absurd (omega arith)
  run_request-ServesAs pages (suc fuel) d
        (more {result} {t} {s'} {id} {docs} {pages = ps} sent p place rest) h =
      rw
        (
          sent,
          p.accepted,
          read_batch-PageAs result true docs t d p,
          deliver-append f docs (flatten ps) d,
          then_assoc t (deliver f docs d) (p.slice, true) (cursor_loop lifted visit (suc fuel)),
        )
        (Ends-then t s' (deliver f docs d) (cursor_loop lifted visit (suc fuel) (p.slice, true))
          (deliver f (flatten ps))
          (λ d'.
            rw (cursor_step result id docs p place fuel t d')
              (run_request-ServesAs ps fuel d' rest (omega arith))))
