-- ===== src/Programs/Endings.antt =====
-- How the programs of examples/ and main.cpp end.
use arango_cpp.Base.{
  ℕ, ◌≢◌, ◌≡◌, ◌↔◌, refl, Option, Option-cases, inl, inr, none, some, List, [], ◌∷◌, Text, ℤ,
  Result, ok, err, arango, velocypack, undefined_behaviour, unfinished, M,
}
use arango_cpp.Velocypack.{VPack, Attempt}
use arango_cpp.Requests.{Settings, HttpMessage}
use arango_cpp.Connection.{ArangoDbConnection}
use arango_cpp.Programs.Timing.{Clock, catching_all, timing_main}
use arango_cpp.Programs.{print, reporting}
use arango_cpp.Programs.Crud.{crud_main, demo_main}
use arango_cpp.Programs.Listing.{listing_main, collections_main, graph_main, users_main}
use arango_cpp.Programs.Queries.{options_main, query_main, selection_main}

-- No exception of the library or of Velocypack leaves a program.
pub record Caught {S : Type 0} (x : Result (Unit {0}) × S) : Type 0 where
  pub no_arango : (title : Text) (id : ℤ) (message : Text) → x.0 ≢ err (arango title id message)
  pub no_velocypack : (what : Text) → x.0 ≢ err (velocypack what)

reporting-Caught :
    {S : Type 0} (title other : Text) (x : Result (Unit {0}) × (S × Text))
    → Caught (reporting title other x)
unfolding reporting print
reporting-Caught title other (ok u, s) = record {
  no_arango = λ t i m e. cc;
  no_velocypack = λ w e. cc;
}
reporting-Caught title other (err (arango t i m), s) = record {
  no_arango = λ t i m e. cc;
  no_velocypack = λ w e. cc;
}
reporting-Caught title other (err (velocypack w), s) = record {
  no_arango = λ t i m e. cc;
  no_velocypack = λ w e. cc;
}
reporting-Caught title other (err undefined_behaviour, s) = record {
  no_arango = λ t i m e. cc;
  no_velocypack = λ w e. cc;
}
reporting-Caught title other (err unfinished, s) = record {
  no_arango = λ t i m e. cc;
  no_velocypack = λ w e. cc;
}

-- None of the eight programs ends with an exception of the library or of Velocypack, whatever the
-- configuration file, the server, the transport and Velocypack do.
pub programs-Caught :
    {vp : VPack} {S : Type 0} (merge : vp.Slice → vp.Slice → Attempt vp.Slice)
    (scaled : ℕ → vp.Slice)
    (send : Settings → ArangoDbConnection → HttpMessage vp → M S (HttpMessage vp))
    (settings : Settings) (read_all_file : Text → Text) (fuel : ℕ) (s : S × Text)
    → Caught (crud_main merge send settings read_all_file s)
      × Caught (demo_main merge send settings s)
      × Caught (collections_main send settings read_all_file s)
      × Caught (graph_main send settings read_all_file s)
      × Caught (users_main send settings s)
      × Caught (options_main send settings fuel read_all_file s)
      × Caught (query_main scaled send settings fuel read_all_file s)
      × Caught (selection_main scaled send settings fuel read_all_file s)
unfolding crud_main demo_main listing_main collections_main graph_main users_main options_main
    query_main selection_main
programs-Caught merge scaled send settings read_all_file fuel s = (
  reporting-Caught _ _ _,
  reporting-Caught _ _ _,
  reporting-Caught _ _ _,
  reporting-Caught _ _ _,
  reporting-Caught _ _ _,
  reporting-Caught _ _ _,
  reporting-Caught _ _ _,
  reporting-Caught _ _ _,
)

catching_all-Caught : {S : Type 0} (x : Result (Unit {0}) × (S × Text)) → Caught (catching_all x)
unfolding catching_all print
catching_all-Caught (ok u, s) = record { no_arango = λ t i m e. cc; no_velocypack = λ w e. cc }
catching_all-Caught (err (arango t i m), s) = record {
  no_arango = λ t i m e. cc;
  no_velocypack = λ w e. cc;
}
catching_all-Caught (err (velocypack w), s) = record {
  no_arango = λ t i m e. cc;
  no_velocypack = λ w e. cc;
}
catching_all-Caught (err undefined_behaviour, s) = record {
  no_arango = λ t i m e. cc;
  no_velocypack = λ w e. cc;
}
catching_all-Caught (err unfinished, s) = record {
  no_arango = λ t i m e. cc;
  no_velocypack = λ w e. cc;
}

-- The same for the timing program, which does not end at all exactly if the number of documents is
-- given and is no number.
pub timing_main-Caught :
    {vp : VPack} {S : Type 0} (clock : Clock S) (stoi : Text → Option ℤ)
    (send : Settings → ArangoDbConnection → HttpMessage vp → M S (HttpMessage vp))
    (settings : Settings) (read_all_file : Text → Text) (fuel : ℕ) (documents : Text)
    (arguments : List Text) (s : S × Text)
    → ((x : Result (Unit {0}) × (S × Text)) × (timing_main clock stoi send settings fuel
            read_all_file [] s
          ≡ some x)
        × Caught x)
      × ((timing_main clock stoi send settings fuel read_all_file (documents ∷ arguments) s ≡ none)
          ↔ (stoi documents ≡ none))
unfolding timing_main
timing_main-Caught clock stoi send settings read_all_file fuel documents arguments s = (
  (_, refl, catching_all-Caught _),
  elim (Option-cases (stoi documents)) [
    | inl e ↦ (λ h. e, λ h. rw (timing_main, e) refl)
    | inr (number, e) ↦ (λ h. let h' = (rw (timing_main, e) at h) in absurd cc, λ h. absurd cc)
  ],
)
