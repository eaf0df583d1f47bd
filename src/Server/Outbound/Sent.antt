-- ===== src/Server/Outbound/Sent.antt =====
-- What an upstream gets of the headers of a request, and a client of the headers of a response.
use corx.Config.Limits.{RedirectPolicy}
use corx.Error.{IpAddr}
use corx.Forwarded.{
  InboundContext, ForwardedConfig, ensure_request_id, append_xff, replace_xff, stamp_client, stamp,
  inject,
}
use corx.Forwarded.Client.{set_static-other, set_optional-other}
use corx.Headers.{HeaderFilter, apply}
use corx.Headers.Filter.{among, dropped, values-apply}
use corx.Http.{Http}
use corx.Prelude.{
  Bool-cases, ℕ, ◌≡◌, refl, ◌∙◌, true, false, inl, inr, Option, none, some, List, [], ◌∷◌, ◌++◌,
  String, Text, codes, str_eq, arith, if◌then◌else◌, Option-cases,
}
use corx.Server.Outbound.{
  expose_url_header, insert_text, inject_default_user_agent, set_host_from_target,
  append_via_header, rewrite_location, rewrite_location_header, via_text, shape_headers,
  outbound_headers,
}
use corx.Urls.{authority_of}

-- the names that the proxy itself writes into a request
abbrev pub stamped_names : List String
stamped_names =
    "x-request-id" ∷ "x-forwarded-for" ∷ "x-forwarded-proto" ∷ "x-forwarded-host"
    ∷ "x-forwarded-port" ∷ "forwarded" ∷ "user-agent" ∷ "host" ∷ []

-- the names that it writes into a response
abbrev pub shaped_names : List String
shaped_names = expose_url_header ∷ "via" ∷ "location" ∷ []

-- A name that is not among some names is none of them.
abbrev Differs : List String → String → Type 0
Differs [] n = Unit
Differs (m ∷ ms) n = (str_eq m n ≡ false) × Differs ms n

among-Differs : (names : List String) (n : String) → among names n ≡ false → Differs names n
unfolding among
among-Differs [] n h = tt
among-Differs (m ∷ names) n h = (ground arith, among-Differs names n (ground arith))

module _ (http : Http) where
  open http use {HeaderValue, HeaderMap, values, from_str, values-insert}

  pub insert_text-other :
      (m : HeaderMap) (name : String) (text : Text) (n : String)
      → str_eq name n ≡ false
      → values (insert_text http m name text) n ≡ values m n
  unfolding insert_text
  insert_text-other m name text n e = elim (Option-cases (from_str text)) [
    | inl f ↦ ground arith
    | inr (v, f) ↦ ground (arith, values-insert m name v n)
  ]

  pub insert_text-same :
      (m : HeaderMap) (name : String) (text : Text) (v : HeaderValue)
      → str_eq name name ≡ true
      → from_str text ≡ some v
      → values (insert_text http m name text) name ≡ v ∷ []
  unfolding insert_text
  insert_text-same m name text v s e = ground (arith, values-insert m name v name)

  rewrite_location-other :
      (m : HeaderMap) (n : String)
      → str_eq "location" n ≡ false
      → values (rewrite_location_header http m) n ≡ values m n
  unfolding rewrite_location_header rewrite_location
  rewrite_location-other m n e = elim (Option-cases (http.get m "location")) [
    | inl f ↦ ground (arith, f)
    | inr (location, f) ↦ elim (Option-cases (http.to_str location)) [
      | inl g ↦ ground (arith, f, g)
      | inr (raw, g) ↦
          let other = insert_text-other m "location" (codes "/" ++ raw) n e in
          ground (arith, f, g, other)
    ]
  ]

  -- Of the headers of an upstream's response, a client gets those that the filter leaves, unchanged,
  -- except for the address of the target, `Via` and `Location`.
  pub shape_headers-values :
      (response_filter : HeaderFilter) (policy : RedirectPolicy) (url : Text) (m : HeaderMap)
      (n : String)
      → among shaped_names n ≡ false
      → values (shape_headers http response_filter policy url m) n
        ≡ (if dropped http response_filter m n then [] else values m n)
  unfolding shape_headers among append_via_header
  shape_headers-values response_filter policy url m n h =
      let (expose, (via, (location, _))) = among-Differs shaped_names n h in
      let headers1 = apply http response_filter m in
      let headers2 = insert_text http headers1 expose_url_header url in
      ground (
        arith,
        values-apply http response_filter m n,
        insert_text-other headers1 expose_url_header url n expose,
        insert_text-other headers2 "via" (via_text http headers2) n via,
        rewrite_location-other (append_via_header http headers2) n location,
      )

module _ (http : Http) (ip_text : IpAddr → Text) where
  open http use {HeaderValue, HeaderMap, values, from_str}

  stamp_client-other :
      (cfg : ForwardedConfig) (client : Option IpAddr) (m : HeaderMap) (n : String)
      → str_eq "x-forwarded-for" n ≡ false
      → values (stamp_client http ip_text cfg client m) n ≡ values m n
  unfolding stamp_client append_xff replace_xff
  stamp_client-other cfg none m n e = refl
  stamp_client-other cfg (some client) m n e = elim (Bool-cases cfg.trust_inbound_xff) [
    | inl t ↦ rw (stamp_client, t) (set_static-other http ip_text m "x-forwarded-for" _ n e)
    | inr t ↦ rw (stamp_client, t) (set_static-other http ip_text m "x-forwarded-for" _ n e)
  ]

  stamp-other :
      (inbound : InboundContext) (host : Text) (cfg : ForwardedConfig) (m : HeaderMap) (n : String)
      → among stamped_names n ≡ false
      → values (stamp http ip_text inbound host cfg m) n ≡ values m n
  unfolding stamp
  stamp-other inbound host cfg m n h =
      let (_, (xff, (proto, (fhost, (fport, (fwd, _)))))) = among-Differs stamped_names n h in
      set_static-other http ip_text _ "forwarded" _ n fwd
      ∙ set_static-other http ip_text _ "x-forwarded-port" _ n fport
      ∙ set_optional-other http ip_text _ "x-forwarded-host" inbound.host n fhost
      ∙ set_static-other http ip_text _ "x-forwarded-proto" _ n proto
      ∙ stamp_client-other cfg inbound.client_ip m n xff

  inject-other :
      (id : Text) (m : HeaderMap) (inbound : InboundContext) (host : Text) (cfg : ForwardedConfig)
      (n : String)
      → among stamped_names n ≡ false
      → values (inject http ip_text id m inbound host cfg) n ≡ values m n
  unfolding inject ensure_request_id
  inject-other id m inbound host cfg n h =
      let (named, _) = among-Differs stamped_names n h in
      let headers1 = if cfg.inject_request_id then ensure_request_id http ip_text id m else m in
      ground (
        arith,
        set_static-other http ip_text m "x-request-id" id n named,
        stamp-other inbound host cfg headers1 n h,
      )

  -- An upstream gets the headers of the request that the filter leaves, unchanged, except for the
  -- names that the proxy writes itself: a hop-by-hop header, one on the operator's list or one that
  -- the first `Connection` header lists is not sent. What only a second one lists is sent.
  pub outbound_headers-values :
      (request_filter : HeaderFilter) (inbound : InboundContext) (cfg : ForwardedConfig)
      (id agent host : Text) (port : Option ℕ) (m : HeaderMap) (n : String)
      → among stamped_names n ≡ false
      → values (outbound_headers http ip_text request_filter inbound cfg id agent host port m) n
        ≡ (if dropped http request_filter m n then [] else values m n)
  unfolding outbound_headers inject_default_user_agent set_host_from_target
  outbound_headers-values request_filter inbound cfg id agent host port m n h =
      let (_, (_, (_, (_, (_, (_, (agent', (host', _)))))))) = among-Differs stamped_names n h in
      let headers1 = apply http request_filter m in
      let headers2 = inject http ip_text id headers1 inbound host cfg in
      let headers3 = inject_default_user_agent http headers2 agent in
      ground (
        arith,
        values-apply http request_filter m n,
        inject-other id headers1 inbound host cfg n h,
        insert_text-other http headers2 "user-agent" agent n agent',
        insert_text-other http headers3 "host" (authority_of host port) n host',
      )

  -- Whatever `Host` a client sends, the upstream gets the authority of the target.
  pub outbound_headers-host :
      (request_filter : HeaderFilter) (inbound : InboundContext) (cfg : ForwardedConfig)
      (id agent host : Text) (port : Option ℕ) (m : HeaderMap) (v : HeaderValue)
      → from_str (authority_of host port) ≡ some v
      → values
          (outbound_headers http ip_text request_filter inbound cfg id agent host port m)
          "host"
        ≡ v ∷ []
  unfolding outbound_headers set_host_from_target
  outbound_headers-host request_filter inbound cfg id agent host port m v e =
      insert_text-same http _ "host" (authority_of host port) v refl e
