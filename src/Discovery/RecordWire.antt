-- ===== src/Discovery/RecordWire.antt =====
-- crates/rds-discovery/src/record_wire.rs and relay_route.rs: how a signed record or deletion is
-- verified. A `SocketAddrV6` travels without flow label and scope, so an address is its IP and port.
pub mod Laws
use remote_device_sync.Base.{
  ℕ, zero, suc, ◌+◌, ◌-◌, ◌*◌, ◌/◌, ◌^◌, Bool, true, false, ◌||◌, ◌&&◌, not, List, [], ◌∷◌, ◌++◌,
  Option, none, some, ltb, leb, ◌==◌, if◌then◌else◌, length, any, bytes_eq, is_some, Result, ok,
  err, ensure, ok_or, ◌>>=◌, ◌>>◌,
}
use remote_device_sync.Base.Text.{bytes}
use remote_device_sync.Crypto.{Crypto}
use remote_device_sync.Discovery.{DiscoveryError, bad_signature, invalid_record}
use remote_device_sync.Discovery.Authority
use remote_device_sync.Discovery.Wire.{
  Ip, v4, v6, SocketAddr, Service, EndpointRecord, Payload, DeleteRequest, DeletePayload, Host,
  ipv4, ipv6, domain, Url, Libraries,
}

abbrev pub record_version : ℕ
record_version = 1

abbrev pub max_record_ttl : ℕ
max_record_ttl = 3600

abbrev pub delete_ttl : ℕ
delete_ttl = 300

abbrev pub max_record_bytes : ℕ
max_record_bytes = 8192

abbrev pub max_direct_addrs : ℕ
max_direct_addrs = 32

abbrev pub max_relay_urls : ℕ
max_relay_urls = 8

abbrev pub max_relay_url_bytes : ℕ
max_relay_url_bytes = 512

abbrev pub record_domain : List ℕ
record_domain = bytes "rds/endpoint-record/v1" ++ (0 ∷ [])

abbrev pub delete_domain : List ℕ
delete_domain = bytes "rds/endpoint-delete/v1" ++ (0 ∷ [])

unfoldable pub metadata : ℕ → ℕ → ℕ → ℕ → ℕ → Result DiscoveryError (Unit {0})
metadata version revision issued expires ttl =
    if not (version == record_version) || revision == 0
    then err invalid_record
    else if leb expires issued || ltb ttl (expires - issued)
    then err invalid_record
    else ok tt

-- `IpAddr::is_unspecified` and `IpAddr::is_multicast`.
abbrev pub is_unspecified : Ip → Bool
is_unspecified (v4 n) = n == 0
is_unspecified (v6 n) = n == 0

abbrev pub is_multicast : Ip → Bool
is_multicast (v4 n) = n / 2 ^ 28 == 14
is_multicast (v6 n) = n / 2 ^ 120 == 255

abbrev pub ip_eq : Ip → Ip → Bool
ip_eq (v4 a) (v4 b) = a == b
ip_eq (v6 a) (v6 b) = a == b
ip_eq _ _ = false

abbrev pub addr_eq : SocketAddr → SocketAddr → Bool
addr_eq a b = ip_eq a.ip b.ip && a.port == b.port

abbrev pub is_unusable : SocketAddr → Bool
is_unusable a = a.port == 0 || is_unspecified a.ip || is_multicast a.ip

abbrev pub service_eq : Service → Service → Bool
service_eq Service.ping Service.ping = true
service_eq Service.info Service.info = true
service_eq Service.tcp_forward Service.tcp_forward = true
service_eq Service.desktop Service.desktop = true
service_eq Service.audio Service.audio = true
service_eq Service.sync Service.sync = true
service_eq _ _ = false

-- A loop `for (i, x) in l.iter().enumerate()` that returns an error where `bad x` holds or `x`
-- stands among the elements before it; `seen` is `l[..i]`.
unfoldable pub check_each {ℓ} :
    {A : Type ℓ} → (A → A → Bool) → (A → Bool) → List A → List A → Result DiscoveryError (Unit {0})
check_each eq bad seen [] = ok tt
check_each eq bad seen (x ∷ xs) =
    let rest = check_each eq bad (seen ++ (x ∷ [])) xs in
    if bad x || any (λ y. eq y x) seen then err invalid_record else rest

-- `u8::from_str_radix` of the digits of a hex text, all at once.
abbrev pub hex_digit : ℕ → Option ℕ
hex_digit c =
    if leb b'0' c && leb c b'9'
    then some (c - b'0')
    else if leb b'a' c && leb c b'f'
    then some (c - b'a' + 10)
    else if leb b'A' c && leb c b'F'
    then some (c - b'A' + 10)
    else none

unfoldable pub hex_value : ℕ → List ℕ → Option ℕ
hex_value acc [] = some acc
hex_value acc (c ∷ cs) = elim (hex_digit c) [ none ↦ none | some d ↦ hex_value (acc * 16 + d) cs ]

module _ (lib : Libraries) where
  -- `OwnedRelayRoute::from_str`: the key and the socket of a relay locator.
  unfoldable pub relay_ip : Option Host → Result DiscoveryError Ip
  relay_ip none = err invalid_record
  relay_ip (some (ipv4 n)) = ok (v4 n)
  relay_ip (some (ipv6 n)) = ok (v6 n)
  relay_ip (some (domain d)) = ok_or (lib.parse_ip d) invalid_record

  abbrev pub is_bad_locator : Url → Bool
  is_bad_locator url =
      not (bytes_eq url.scheme (bytes "rds-relay"))
      || is_some url.password
      || not (bytes_eq url.path [] || bytes_eq url.path (bytes "/"))
      || is_some url.query
      || is_some url.fragment

  unfoldable pub parse_route : List ℕ → Result DiscoveryError (ℕ × SocketAddr)
  parse_route raw = do
    ensure (not (ltb max_relay_url_bytes (length raw))) invalid_record
    url ← ok_or (lib.parse_url raw) invalid_record
    ensure (not (is_bad_locator url)) invalid_record
    ensure (length url.username == 64) invalid_record
    key ← ok_or (hex_value 0 url.username) invalid_record
    ensure (lib.crypto.key_valid key) invalid_record
    ip ← relay_ip url.host
    port ← ok_or url.port invalid_record
    let addr : SocketAddr = record { ip = ip; port = port }
    ensure (not (is_unusable addr)) invalid_record
    ok (key, addr)

  abbrev pub is_bad_origin : Url → Bool
  is_bad_origin url =
      not (bytes_eq url.scheme (bytes "http") || bytes_eq url.scheme (bytes "https"))
      || not (is_some url.host)
      || not (bytes_eq url.username [])
      || is_some url.password
      || not (bytes_eq url.path (bytes "/"))
      || is_some url.query
      || is_some url.fragment
      || (elim url.port_or_known_default [ none ↦ false | some p ↦ p == 0 ])

  -- What the loop over `relay_urls` refuses in one of them, repetition apart.
  unfoldable pub is_bad_relay : List ℕ → Bool
  is_bad_relay raw =
      if ltb max_relay_url_bytes (length raw) then true else elim (lib.parse_url raw) [
        | none ↦ true
        | some url ↦
            if bytes_eq url.scheme (bytes "rds-relay")
            then elim (parse_route raw) [ ok r ↦ false | err e ↦ true ]
            else is_bad_origin url
      ]

  -- `Payload::validate`.
  unfoldable pub validate : Payload → Result DiscoveryError (Unit {0})
  validate p = do
    metadata p.version p.revision p.issued_at p.expires_at max_record_ttl
    ensure
        (not (
          ltb max_direct_addrs (length p.addrs)
          || ltb max_relay_urls (length p.relay_urls)
          || ltb 6 (length p.services)))
        invalid_record
    check_each addr_eq is_unusable [] p.addrs
    check_each bytes_eq is_bad_relay [] p.relay_urls
    check_each service_eq (λ s. false) [] p.services

  -- The bytes decode whole.
  abbrev pub whole {ℓ} : {A : Type ℓ} → Option (A × List ℕ) → Option A
  whole (some (a, [])) = some a
  whole _ = none

  -- `payload_version`, and the comparison that follows each call of it.
  unfoldable pub check_version : List ℕ → Result DiscoveryError (Unit {0})
  check_version payload = do
    (version, _) ← ok_or (lib.take_u16 payload) invalid_record
    ensure (version == record_version) invalid_record

  -- `EndpointRecord::verify`.
  unfoldable pub verify_record : EndpointRecord → Result DiscoveryError Payload
  verify_record r = do
    ensure (lib.crypto.key_valid r.key) bad_signature
    Authority.verify lib.crypto record_domain r.payload r.signature r.key max_record_bytes
    check_version r.payload
    payload ← ok_or (whole (lib.take_payload r.payload)) invalid_record
    ensure (payload.key == r.key) bad_signature
    validate payload
    ok payload

  -- `DeleteRequest::verify`.
  unfoldable pub verify_delete : DeleteRequest → Result DiscoveryError DeletePayload
  verify_delete r = do
    ensure (lib.crypto.key_valid r.key) bad_signature
    Authority.verify lib.crypto delete_domain r.payload r.signature r.key 128
    check_version r.payload
    payload ← ok_or (whole (lib.take_delete r.payload)) invalid_record
    ensure (payload.key == r.key) bad_signature
    metadata payload.version payload.revision payload.issued_at payload.expires_at delete_ttl
    ok payload
