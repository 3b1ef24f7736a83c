-- ===== src/Programs.antt =====
-- The programs of examples/ and main.cpp: sequences of calls of the library, with what they print.
pub mod Crud
pub mod Listing
pub mod Substances
pub mod Queries
pub mod Restores
pub mod Inserts
pub mod Timing
pub mod Endings
use arango_cpp.Base.{
  ℕ, ◌+◌, Bool, true, false, List, [], ◌∷◌, ◌++◌, Text, lit, ℤ, pos, negsuc, Fault, arango,
  velocypack, undefined_behaviour, unfinished, Result, ok, err, M, ◌>>=◌, throw, if◌then◌else◌,
}
use arango_cpp.Base.Maps.{Map}
use arango_cpp.Velocypack.{VPack}
use arango_cpp.Requests.{Settings, HttpMessage}
use arango_cpp.Requests.Printing.{decimal}
use arango_cpp.Connection.{ArangoDbConnection, connect_from_config}
use arango_cpp.Api.{Client, client_of, new_api}
use arango_cpp.Select.{lift_client}

-- `std::to_string` of an `int`
unfoldable pub int_text : ℤ → Text
int_text (pos n) = decimal n
int_text (negsuc n) = lit "-" ++ decimal (n + 1)

-- `arango_exception::getheader`
unfoldable pub getheader : Text → ℤ → Text
unfolding int_text
getheader title id = (lit "arango:" ++ title) ++ (lit ":" ++ int_text id)

-- A Boolean on the console.
abbrev pub digit : Bool → Text
digit b = if b then lit "1" else lit "0"

-- The console is the text that has been printed.
unfoldable pub print : {S : Type 0} → Text → M (S × Text) (Unit {0})
print shown (s, out) = (ok tt, (s, out ++ shown))

-- An action that leaves what stands beside the state alone.
unfoldable pub on_first : {S D A : Type 0} → M S A → M (S × D) A
on_first m (s, d) = let (r, s') = m s in (r, (s', d))

-- The elements of a set on one line.
unfoldable pub spaced : List Text → Text
spaced [] = lit "\n"
spaced (x ∷ xs) = x ++ (lit "  " ++ spaced xs)

-- The `catch` clauses of a program: what they print for an exception of the library, and for one of
-- Velocypack, which is a `std::exception`. The program returns 0 after both.
unfoldable pub reporting :
    {S : Type 0} → Text → Text → Result (Unit {0}) × (S × Text) → Result (Unit {0}) × (S × Text)
unfolding print getheader
reporting title other (ok u, s) = (ok u, s)
reporting title other (err (arango t id message), s) =
    print (title ++ (getheader t id ++ (message ++ lit "\n"))) s
reporting title other (err (velocypack what), s) = print (other ++ (what ++ lit "\n")) s
reporting title other (err undefined_behaviour, s) = (err undefined_behaviour, s)
reporting title other (err unfinished, s) = (err unfinished, s)

module _ {vp : VPack} {S : Type 0}
    (send : Settings → ArangoDbConnection → HttpMessage vp → M S (HttpMessage vp)) where
  -- An API object for these data, and what is done with it.
  unfoldable pub connected :
      ArangoDbConnection
      → Settings
      → (Client vp (S × Text) → M (S × Text) (Unit {0}))
      → M (S × Text) (Unit {0})
  unfolding on_first
  connected connect_data settings session = do
    api ← on_first (new_api (send settings) settings connect_data)
    session (lift_client Text (client_of (send settings) settings api))

  with_data :
      (Client vp (S × Text) → M (S × Text) (Unit {0}))
      → Result ArangoDbConnection × Settings
      → M (S × Text) (Unit {0})
  with_data session (ok connect_data, settings) = connected connect_data settings session
  with_data session (err e, settings) = throw e

  -- An API object for the data of the configuration file, which set the static members, too.
  unfoldable pub from_config :
      (Text → Text)
      → Settings
      → (Client vp (S × Text) → M (S × Text) (Unit {0}))
      → M (S × Text) (Unit {0})
  unfolding with_data
  from_config read_all_file settings session =
      with_data session (connect_from_config vp read_all_file (lit "examples-cfg.json") settings)
