-- ===== src/Programs/Timing.antt =====
-- examples/time_test.cpp. The clock, the numbers of its durations and `std::stoi` are parameters.
use arango_cpp.Base.{
  ℕ, zero, suc, ◌+◌, Option, none, some, List, [], ◌∷◌, ◌++◌, Text, lit, length, ℤ, pos, negsuc,
  Result, ok, err, arango, velocypack, undefined_behaviour, unfinished, M, ◌>>=◌, ◌>>◌, pure,
}
use arango_cpp.Velocypack.{VPack, call}
use arango_cpp.Requests.{Settings, HttpMessage}
use arango_cpp.Requests.Printing.{decimal}
use arango_cpp.Query.{QueryType, query, query_of_type}
use arango_cpp.Connection.{ArangoDbConnection}
use arango_cpp.Api.{Client}
use arango_cpp.Collections.{create_collection, create_document}
use arango_cpp.Select.{lift_client, keep, select_query}
use arango_cpp.Removal.{remove_by_template}
use arango_cpp.Programs.{print, on_first, from_config, int_text}
use arango_cpp.Programs.Queries.{numbered, clear, with_values}

-- `std::chrono::high_resolution_clock::now()` and the counts of the two `duration_cast`s.
pub record Clock (S : Type 0) : Type 1 where
  pub Time : Type 0
  pub now : S → Time × S
  pub microseconds : Time → Time → ℤ
  pub seconds : Time → Time → ℤ

-- The rounds of `for( int ii=0; ii<number; ii++ )`.
unfoldable pub rounds : ℤ → ℕ
rounds (pos n) = n
rounds (negsuc n) = 0

-- `catch(...)`: a message, and the program goes on to return 0.
unfoldable pub catching_all :
    {S : Type 0} → Result (Unit {0}) × (S × Text) → Result (Unit {0}) × (S × Text)
unfolding print
catching_all (ok u, s) = (ok u, s)
catching_all (err (arango t id message), s) = print (lit "  unknown exception\n") s
catching_all (err (velocypack what), s) = print (lit "  unknown exception\n") s
catching_all (err undefined_behaviour, s) = (err undefined_behaviour, s)
catching_all (err unfinished, s) = (err unfinished, s)

module _ {S : Type 0} (clock : Clock S) where
  -- The time, with the console and the values left alone.
  unfoldable pub read_clock : M ((S × Text) × List Text) clock.Time
  unfolding on_first
  read_clock = on_first (on_first (λ s. let (t, s') = clock.now s in (ok t, s')))

  unfoldable pub print_time : Text → clock.Time → clock.Time → M ((S × Text) × List Text) (Unit {0})
  print_time title start end = on_first (
      print (
        (title ++ lit "\nElapsed time in microseconds: ")
        ++ (int_text (clock.microseconds start end) ++ (lit " " ++ (206 ∷ 188 ∷ lit "s\n")))))

  unfoldable pub print_time_sec :
      Text → clock.Time → clock.Time → M ((S × Text) × List Text) (Unit {0})
  print_time_sec title start end = on_first (
      print (
        (title ++ lit "\nElapsed time in seconds: ")
        ++ (int_text (clock.seconds start end) ++ lit "s\n")))

-- A title with the number of the values.
unfoldable pub counted : {T : Type 0} → Text → M (T × List Text) Text
counted title (s, values) =
    (ok ((title ++ lit " ( ") ++ (decimal (length values) ++ lit " )")), (s, values))

module _ (vp : VPack) (scaled : ℕ → vp.Slice) where
  -- The loop that creates the documents from number `ii` on, with `left` to go.
  unfoldable pub insert_documents :
      {T : Type 0} → Client vp T → Text → ℕ → ℕ → List Text → M T (List Text)
  insert_documents connect collection_name ii zero rec_keys = pure rec_keys
  insert_documents connect collection_name ii (suc left) rec_keys = do
    json ← call (vp.to_json (numbered vp scaled ii))
    rkey ← create_document connect collection_name json
    insert_documents connect collection_name (ii + 1) left (rec_keys ++ rkey ∷ [])

module _ {vp : VPack} {S : Type 0} (clock : Clock S) where
  -- `different_query_types`, for a number of documents.
  unfoldable pub different_query_types :
      (ℕ → vp.Slice) → ℕ → ℤ → Client vp (S × Text) → M (S × Text) (Unit {0})
  unfolding rounds insert_documents
  different_query_types scaled fuel documents_in_collection c = with_values (do
    let connect = lift_client (List Text) c
    let collection_name = lit "test_oo"
    start ← read_clock clock
    create_collection connect collection_name (lit "vertex")
    end1 ← read_clock clock
    print_time clock (lit "Create collection") start end1
    rec_keys ←
        insert_documents vp scaled connect collection_name 0 (rounds documents_in_collection) []
    end2 ← read_clock clock
    print_time clock (lit "Insert documents to database") end1 end2
    clear
    let allquery = query_of_type QueryType.all
    select_query connect fuel collection_name allquery keep
    end3 ← read_clock clock
    print_time clock (lit "Select all records") end2 end3
    clear
    select_query connect fuel collection_name
        (query (lit "{ \"name\" : \"a\" }") QueryType.template) keep
    end4 ← read_clock clock
    print_time clock (lit "Select records by template") end3 end4
    clear
    let aql =
        (lit "FOR u IN " ++ collection_name)
        ++ lit
            "\nFILTER u.properties.value > 50 \nRETURN { \"_id\": u._id, \"name\":u.name, \"index\":u.index }"
    select_query connect fuel collection_name (query aql QueryType.aql) keep
    end5 ← read_clock clock
    print_time clock (lit "Select records by AQL query") end4 end5
    remove_by_template connect collection_name (lit "{ \"name\" : \"a\" }")
    clear
    select_query connect fuel collection_name allquery keep
    remove_by_template connect collection_name (lit "{ \"name\" : \"b\" }")
    end6 ← read_clock clock
    print_time clock (lit "Delete by example") end5 end6
    print_time clock (lit "All time") start end6)

  unfoldable pub substances_query_types : ℕ → Client vp (S × Text) → M (S × Text) (Unit {0})
  unfolding counted
  substances_query_types fuel c = with_values (do
    let connect = lift_client (List Text) c
    let collection_name = lit "substances"
    start ← read_clock clock
    create_collection connect collection_name (lit "vertex")
    end1 ← read_clock clock
    print_time_sec clock (lit "Create collection") start end1
    clear
    select_query connect fuel collection_name (query_of_type QueryType.all) keep
    end2 ← read_clock clock
    all_title ← counted (lit "Select all records")
    print_time_sec clock all_title end1 end2
    clear
    select_query connect fuel collection_name
        (query (lit "{ \"_label\" : \"substance\" }") QueryType.template) keep
    end3 ← read_clock clock
    template_title ← counted (lit "Select records by template")
    print_time_sec clock template_title end2 end3
    clear
    let aql =
        (lit "FOR u IN " ++ collection_name)
        ++ lit "\nRETURN { \"_id\": u._id, \"name\":u.properties.name }"
    select_query connect fuel collection_name (query aql QueryType.aql) keep
    end4 ← read_clock clock
    aql_title ← counted (lit "Select records by AQL query")
    print_time_sec clock aql_title end3 end4
    print_time_sec clock (lit "All time") start end4)

  -- The arguments behind the name of the program: the number of documents and the settings file.
  -- There is no result if `std::stoi` throws, since that is outside the `try` block. The settings
  -- file of the arguments is not used.
  unfoldable pub timing_main :
      (Text → Option ℤ)
      → (Settings → ArangoDbConnection → HttpMessage vp → M S (HttpMessage vp))
      → Settings
      → ℕ
      → (Text → Text)
      → List Text
      → S × Text
      → Option (Result (Unit {0}) × (S × Text))
  timing_main stoi send settings fuel read_all_file arguments s =
      let ended =
        catching_all (from_config send read_all_file settings (substances_query_types fuel) s) in
      elim arguments [
        | [] ↦ some ended
        | documents ∷ _ ↦ elim (stoi documents) [ none ↦ none | some number ↦ some ended ]
      ]
