-- ===== src/Proxy/Hops.antt =====
-- internal/proxy/handler.go: the headers that pass from one hop to the next.
use hacp_sidecar.Common.{
  String, ◌≡◌, ◌≢◌, refl, sym, ap, ◌∙◌, true, Option, none, some, List, [], ◌∷◌, ◌++◌, str_eq,
  if◌then◌else◌, inl, inr, Bool-cases,
}
use hacp_sidecar.Common.Strings.{lookup, put, lookup-put, not_eq-false, contains}
use hacp_sidecar.Wire.Headers.{Header, get}

-- What the code uses of net/http and strings.
pub record Http : Type 0 where
  pub canonical_key : String → String
  pub split_commas : String → List String
  pub trim_space : String → String

abbrev pub transport_headers : List String
transport_headers =
    "Connection" ∷ "Keep-Alive" ∷ "Proxy-Connection" ∷ "Proxy-Authenticate" ∷ "Proxy-Authorization"
    ∷ "Te" ∷ "Trailer" ∷ "Transfer-Encoding" ∷ "Upgrade" ∷ []

abbrev pub or_none : Option (List String) → List String
or_none none = []
or_none (some vs) = vs

module _ (http : Http) where
  -- `h.Add(name, value)`.
  unfoldable pub add_value : Header → String → String → Header
  unfolding lookup put
  add_value h name value =
      let key = http.canonical_key name in put key (or_none (lookup key h) ++ (value ∷ [])) h

  unfoldable pub add_values : Header → String → List String → Header
  unfolding add_value
  add_values h name [] = h
  add_values h name (v ∷ vs) = add_values (add_value h name v) name vs

  -- The names of a Connection header.
  unfoldable pub nominated : List String → List String
  nominated [] = []
  nominated (name ∷ names) =
      let rest = nominated names in
      if str_eq (http.trim_space name) ""
      then rest
      else http.canonical_key (http.trim_space name) ∷ rest

  -- The keys of the map `hopByHop`; an empty Connection header nominates nothing.
  unfoldable pub hop_by_hop : Header → List String
  unfolding nominated get
  hop_by_hop src =
      let connection = get http.canonical_key src "Connection" in
      (if str_eq connection "" then [] else nominated (http.split_commas connection))
      ++ transport_headers

  -- The loop over the headers, for the names not to copy.
  unfoldable pub copy_except : List String → Header → Header → Header
  unfolding add_values contains
  copy_except hops dst [] = dst
  copy_except hops dst ((name, values) ∷ src) =
      if contains (http.canonical_key name) hops
      then copy_except hops dst src
      else copy_except hops (add_values dst (http.canonical_key name) values) src

  unfoldable pub copy_end_to_end_headers : Header → Header → Header
  unfolding copy_except hop_by_hop
  copy_end_to_end_headers dst src = copy_except (hop_by_hop src) dst src

  -- A canonical name is its own canonical form.
  abbrev pub Idempotent : Type 0
  Idempotent =
      (name : String) → http.canonical_key (http.canonical_key name) ≡ http.canonical_key name

  add_values-other :
      (dst : Header) (key : String) (values : List String) (name : String)
      → http.canonical_key key ≢ name
      → lookup name (add_values dst key values) ≡ lookup name dst
  unfolding add_values add_value
  add_values-other dst key [] name h = refl
  add_values-other dst key (v ∷ vs) name h =
      add_values-other (add_value dst key v) key vs name h
      ∙ lookup-put (http.canonical_key key) name
          (or_none (lookup (http.canonical_key key) dst) ++ (v ∷ [])) dst
      ∙ rw (not_eq-false (http.canonical_key key) name h) refl

  copy_except-hop :
      (hops : List String) (dst src : Header) (name : String)
      → Idempotent
      → contains name hops ≡ true
      → lookup name (copy_except hops dst src) ≡ lookup name dst
  unfolding copy_except
  copy_except-hop hops dst [] name idem h = refl
  copy_except-hop hops dst ((k, vs) ∷ src) name idem h =
      elim (Bool-cases (contains (http.canonical_key k) hops)) [
        | inl hop ↦ rw (hop, copy_except) (copy_except-hop hops dst src name idem h)
        | inr end ↦
            let other : http.canonical_key (http.canonical_key k) ≢ name =
              λ e. cc (ap (λ n. contains n hops) (sym (idem k) ∙ e), end, h) in
            rw (end, copy_except)
              (copy_except-hop hops (add_values dst (http.canonical_key k) vs) src name idem h
                ∙ add_values-other dst (http.canonical_key k) vs name other)
      ]

  -- Where canonical names are canonical, the copy changes no hop-by-hop header of the destination: neither
  -- those of the transport nor those that the Connection header of the source names.
  pub copy_end_to_end_headers-hop :
      (dst src : Header) (name : String)
      → Idempotent
      → contains name (hop_by_hop src) ≡ true
      → lookup name (copy_end_to_end_headers dst src) ≡ lookup name dst
  unfolding copy_end_to_end_headers
  copy_end_to_end_headers-hop dst src name idem h =
      copy_except-hop (hop_by_hop src) dst src name idem h
