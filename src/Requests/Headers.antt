-- ===== src/Requests/Headers.antt =====
-- The headers of a new request.
use arango_cpp.Base.{
  none, some, ◌≡◌, refl, Text, lit, text_eq, text_lt, if◌then◌else◌, Bool-cases, inl, inr,
}
use arango_cpp.Base.Maps.{Map, lookup, insert, erase}
use arango_cpp.Velocypack.{VPack}
use arango_cpp.Requests.{
  Settings, RestVerb, create_request, erase_meta, fu_content_type_key, fu_accept_key,
  fu_content_type_vpack, set_content_type,
}

-- A new request has its verb, path and parameters, and says that its body is Velocypack; it asks
-- for a Velocypack answer exactly if the static member says so. Erasing `accept` takes that wish
-- back and leaves the content type.
pub create_request_lem :
    (vp : VPack) (settings : Settings) (verb : RestVerb) (path : Text) (parameters : Map Text)
    → let m = create_request vp settings verb path parameters in
      let n = erase_meta (lit "accept") m in
      (m.header.rest_verb ≡ verb)
      × (m.header.path ≡ path)
      × (m.header.parameters ≡ parameters)
      × (lookup fu_content_type_key m.header.meta ≡ some fu_content_type_vpack)
      × (lookup fu_accept_key m.header.meta
          ≡ (if settings.use_velocypack_get then some fu_content_type_vpack else none))
      × (lookup fu_content_type_key n.header.meta ≡ some fu_content_type_vpack)
      × (lookup fu_accept_key n.header.meta ≡ none)
unfolding create_request erase_meta set_content_type lookup insert erase text_eq text_lt lit
create_request_lem vp settings verb path parameters =
    elim (Bool-cases settings.use_velocypack_get) [
      | inl e ↦ rw e (refl, refl, refl, refl, refl, refl, refl)
      | inr e ↦ rw e (refl, refl, refl, refl, refl, refl, refl)
    ]
