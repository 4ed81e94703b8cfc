-- ===== src/Plugin/Runtime/Endpoint.antt =====
-- NewRemoteRuntimeService, determineAPIVersion, getConnection, GetAddressAndDialer and the parsers
-- of an endpoint in internal/deviceplugin/pod_config.go: the connection to a CRI runtime.
use alibabacloud_erdma_contr.Prelude.{
  ◌≡◌, ◌∙◌, arith, ◌⊎◌, inl, inr, Bool, true, Option, Option-cases, Bool-cases, none, some, [],
  ◌++◌, Text, codes, text_eq, text_eq_iff, is_empty, if◌then◌else◌,
}
use alibabacloud_erdma_contr.Exec.{Error, Res, ok, err, errorf, wrap, Exec}
use alibabacloud_erdma_contr.Exec.Act.{◌>>=◌, pure, raise, lift, reword, handle}
use alibabacloud_erdma_contr.Plugin.Runtime.{RuntimeClient, Service}

-- The parts of a url.URL that the code reads.
pub record Url : Type 0 where
  pub scheme : Text
  pub host : Text
  pub path : Text

-- A result of parseEndpoint: the protocol, the address, and the error beside them.
pub record Parsed : Type 0 where
  pub protocol : Text
  pub addr : Text
  pub error : Option Error

abbrev unix_protocol : Text
unix_protocol = codes "unix"

-- url.Parse: the URL, or the error.
module _ (parse : Text → Error ⊎ Url) where
  unfoldable pub parse_endpoint : Text → Parsed
  parse_endpoint endpoint = elim (parse endpoint) [
    | inl e ↦ record { protocol = []; addr = []; error = some e }
    | inr u ↦
        if text_eq u.scheme (codes "tcp")
        then record { protocol = codes "tcp"; addr = u.host; error = none }
        else if text_eq u.scheme (codes "unix")
        then record { protocol = codes "unix"; addr = u.path; error = none }
        else if text_eq u.scheme []
        then record {
          protocol = [];
          addr = [];
          error = some (
              errorf "using %q as endpoint is deprecated, please consider using full url format"
                []);
        }
        else record {
          protocol = u.scheme;
          addr = [];
          error = some (errorf "protocol %q not supported" []);
        }
  ]

  unfoldable pub with_fallback : Text → Parsed → Parsed
  unfolding parse_endpoint
  with_fallback fallback_endpoint p = elim p.error [
    | none ↦ p
    | some e ↦ if is_empty p.protocol then parse_endpoint fallback_endpoint else p
  ]

  unfoldable pub parse_endpoint_with_fallback_protocol : Text → Text → Parsed
  unfolding parse_endpoint with_fallback
  parse_endpoint_with_fallback_protocol endpoint fallback_protocol =
      with_fallback (fallback_protocol ++ codes "://" ++ endpoint) (parse_endpoint endpoint)

  unfoldable pub address_of : Parsed → Res Text
  address_of p = elim p.error [
    | some e ↦ err e
    | none ↦
        if text_eq p.protocol unix_protocol
        then ok p.addr
        else err (errorf "only support unix socket endpoint" [])
  ]

  -- The address; the dialer is always dialUnix.
  unfoldable pub get_address_and_dialer : Text → Res Text
  unfolding parse_endpoint_with_fallback_protocol address_of
  get_address_and_dialer endpoint =
      address_of (parse_endpoint_with_fallback_protocol endpoint unix_protocol)

  -- The URL is one of a socket at the path.
  abbrev pub IsSocketUrl : Text → Text → Type 0
  IsSocketUrl url path =
      (u : Url) × (parse url ≡ inr u) × (u.scheme ≡ codes "unix") × (u.path ≡ path)

  -- The text is not taken as an endpoint itself: it is no URL, or one without a scheme.
  abbrev pub IsBare : Text → Type 0
  IsBare url =
      ((e : Error) × (parse url ≡ inl e)) ⊎ ((u : Url) × (parse url ≡ inr u) × (u.scheme ≡ []))

  parse_endpoint-IsSocketUrl :
      (url : Text)
      → (parse_endpoint url).error ≡ none
      → text_eq (parse_endpoint url).protocol unix_protocol ≡ true
      → IsSocketUrl url (parse_endpoint url).addr
  unfolding parse_endpoint
  parse_endpoint-IsSocketUrl url h k = grind (arith, text_eq_iff)

  parse_endpoint-IsBare :
      (url : Text) (e : Error)
      → (parse_endpoint url).error ≡ some e
      → is_empty (parse_endpoint url).protocol ≡ true
      → IsBare url
  unfolding parse_endpoint
  parse_endpoint-IsBare url e h k = grind (arith, text_eq_iff)

  address_of-parts :
      (p : Parsed) (path : Text)
      → address_of p ≡ ok path
      → (p.error ≡ none) × (text_eq p.protocol unix_protocol ≡ true) × (p.addr ≡ path)
  unfolding address_of
  address_of-parts p path h = ground arith

  address_of-IsSocketUrl :
      (url path : Text) → address_of (parse_endpoint url) ≡ ok path → IsSocketUrl url path
  address_of-IsSocketUrl url path h =
      let (e, p, a) = address_of-parts (parse_endpoint url) path h in
      let (u, r, s, q) = parse_endpoint-IsSocketUrl url e p in (u, r, s, q ∙ a)

  address_of-with_fallback :
      (url : Text) (p : Parsed) (path : Text)
      → address_of (with_fallback url p) ≡ ok path
      → (address_of p ≡ ok path)
        ⊎ (((e : Error) × (p.error ≡ some e))
            × (is_empty p.protocol ≡ true)
            × (address_of (parse_endpoint url) ≡ ok path))
  unfolding with_fallback address_of
  address_of-with_fallback url p path h = elim (Option-cases p.error) [
    | inl n ↦ inl (rw (n, with_fallback) at h)
    | inr s ↦ elim (Bool-cases (is_empty p.protocol)) [
      | inl b ↦ inr (s, b, rw (s.1, b) at h)
      | inr b ↦ cc
    ]
  ]

  -- `get_address_and_dialer` returns an address only of the endpoints that are the URL of a unix
  -- socket at that path, or that make no URL with a scheme and do so behind `unix://`.
  pub get_address_and_dialer_lem :
      (endpoint path : Text)
      → get_address_and_dialer endpoint ≡ ok path
      → IsSocketUrl endpoint path
        ⊎ (IsBare endpoint × IsSocketUrl (codes "unix://" ++ endpoint) path)
  unfolding get_address_and_dialer parse_endpoint_with_fallback_protocol
  get_address_and_dialer_lem endpoint path h =
      elim (address_of-with_fallback _ (parse_endpoint endpoint) path h) [
        | inl k ↦ inl (address_of-IsSocketUrl endpoint path k)
        | inr k ↦ inr (
          parse_endpoint-IsBare endpoint k.0.0 k.0.1 k.1,
          address_of-IsSocketUrl (codes "unix://" ++ endpoint) path k.2,
        )
      ]

-- grpc.DialContext and the two constructors of clients, over a connection `C`; `unimplemented` is
-- whether the status code of an error is codes.Unimplemented.
pub record Grpc (W X C : Type 0) : Type 0 where
  pub parse : Text → Error ⊎ Url
  pub dial : Text → Exec W C
  pub new_client : C → RuntimeClient W X
  pub new_client_v1alpha2 : C → RuntimeClient W X
  pub unimplemented : Error → Bool

module _ {W X C : Type 0} (grpc : Grpc W X C) where
  -- The error of DialContext is not shown.
  unfoldable pub get_connection : Text → Exec W C
  unfolding get_address_and_dialer
  get_connection endpoint = do
    addr ← lift (get_address_and_dialer grpc.parse endpoint)
    reword
        (λ e.
          errorf
            "connect endpoint '%s', make sure you are running as root and the endpoint has been started"
            [])
        (grpc.dial addr)

  unfoldable pub determine_api_version : C → Exec W (Service W X)
  determine_api_version conn =
      handle ((grpc.new_client conn).version "")
        (λ v.
          pure (record { runtime_client = grpc.new_client conn; runtime_client_v1alpha2 = none }))
        (λ e.
          if grpc.unimplemented e
          then pure (record {
            runtime_client = grpc.new_client conn;
            runtime_client_v1alpha2 = some (grpc.new_client_v1alpha2 conn);
          })
          else raise (wrap "unable to determine runtime API version: %w" [] e))

  unfoldable pub new_remote_runtime_service : Text → Exec W (Service W X)
  unfolding get_connection determine_api_version
  new_remote_runtime_service endpoint = do
    conn ← get_connection endpoint
    determine_api_version conn
