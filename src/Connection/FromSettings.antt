-- ===== src/Connection/FromSettings.antt =====
-- `connectFromSettings`: its outcomes, and what it does to the static members.
use arango_cpp.Base.{Bool, true, false, ◌≡◌, ◌≢◌, arith, Text, err, velocypack}
use arango_cpp.Velocypack.{VPack, exception, attempt}
use arango_cpp.Requests.{Settings}
use arango_cpp.Connection.{connect_from_settings, settings_error}

module _ (vp : VPack) where
  -- A text that is no JSON is reported as error 4, and the static members keep their values.
  connect_from_settings_no_json :
      (jsonstr what : Text) (rootdata : Bool) (s : Settings)
      → vp.from_json jsonstr ≡ exception what
      → connect_from_settings vp jsonstr rootdata s ≡ (err (settings_error vp what), s)
  unfolding connect_from_settings attempt
  connect_from_settings_no_json jsonstr what rootdata s e = rw e

  -- No exception of Velocypack leaves the function, and the list of edges is never touched.
  pub connect_from_settings-ne-velocypack :
      (jsonstr : Text) (rootdata : Bool) (s : Settings) (what : Text)
      → ((connect_from_settings vp jsonstr rootdata s).0 ≢ err (velocypack what))
        × ((connect_from_settings vp jsonstr rootdata s).1.full_list_of_edges
            ≡ s.full_list_of_edges)
  unfolding connect_from_settings attempt
  connect_from_settings-ne-velocypack jsonstr true s what = (ground arith, ground arith)
  connect_from_settings-ne-velocypack jsonstr false s what = (ground arith, ground arith)
