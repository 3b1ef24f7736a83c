-- ===== src/Documents/Refines.antt =====
-- The operations on documents, over a server that keeps its promises, against a database.
use arango_cpp.Base.{List, ◌∷◌, Option, ◌≡◌, sym, subst, Text}
use arango_cpp.Velocypack.{VPack}
use arango_cpp.Api.{Client}
use arango_cpp.Documents.{Op, Outcome, apply, Store, Choice, IsFair, Runs, step}
use arango_cpp.Documents.Outcomes.{viewed}
use arango_cpp.Documents.Server.{IsServer}

-- A call with the outcome of its counterpart, before a run.
pub run_step :
    {vp : VPack} (asks : vp.Slice → Option Text) (Keeps : vp.Slice → Text → Type 0) (op : Op)
    (ch : Choice vp) {store next after : Store} {o : Outcome} {ops : List Op} {os : List Outcome}
    → IsFair vp asks Keeps ch store
    → (o, next) ≡ apply ch op store
    → Runs vp asks Keeps ops next os after
    → Runs vp asks Keeps (op ∷ ops) store (o ∷ os) after
run_step {vp = vp} asks Keeps op ch {store} {next} {after} {o} {ops} {os} fair e rest =
    subst
      (λ (x : Outcome × Store).
        Runs vp asks Keeps ops x.1 os after → Runs vp asks Keeps (op ∷ ops) store (x.0 ∷ os) after)
      (sym e) (step ch fair) rest

module _ {vp : VPack} {S : Type 0} (c : Client vp S) where
  module _ {view : S → Store} {asks : vp.Slice → Option Text} {Keeps : vp.Slice → Text → Type 0}
      (srv : IsServer c view asks Keeps) where
    -- What a caller sees, with the database instead of the state.
    abbrev shown : Outcome × S → Outcome × Store
    shown = viewed view
