-- ===== src/Discovery/Wire.antt =====
-- The signed operations of crates/rds-discovery/src/record_wire.rs and the entries of records/entry.rs
-- as data, and what the crate takes from postcard, the `url` crate and the address parser.
use remote_device_sync.Base.{ℕ, List, Option}
use remote_device_sync.Crypto.{Crypto}

-- `IpAddr` and `SocketAddr`; an address is the number that its octets spell.
pub data Ip : Type 0 where
  v4 v6 : ℕ → Ip

pub record SocketAddr : Type 0 where
  pub ip : Ip
  pub port : ℕ

-- `Service` of crates/rds-discovery/src/lib.rs.
pub data Service : Type 0 where
  ping info tcp_forward desktop audio sync : Service

pub record EndpointRecord : Type 0 where
  pub key : ℕ
  pub payload : List ℕ
  pub signature : List ℕ

pub record Payload : Type 0 where
  pub version : ℕ
  pub key : ℕ
  pub revision : ℕ
  pub addrs : List SocketAddr
  pub relay_urls : List (List ℕ)
  pub services : List Service
  pub issued_at : ℕ
  pub expires_at : ℕ

pub record DeleteRequest : Type 0 where
  pub key : ℕ
  pub payload : List ℕ
  pub signature : List ℕ

pub record DeletePayload : Type 0 where
  pub version : ℕ
  pub key : ℕ
  pub revision : ℕ
  pub issued_at : ℕ
  pub expires_at : ℕ

-- `Entry::Record` and `Entry::Deleted` of records/entry.rs.
pub data Entry : Type 0 where
  published : EndpointRecord → Entry
  deleted : DeleteRequest → Entry

-- A parsed `url::Url`, by the accessors that the crate calls.
pub data Host : Type 0 where
  ipv4 ipv6 : ℕ → Host
  domain : List ℕ → Host

pub record Url : Type 0 where
  pub scheme : List ℕ
  pub host : Option Host
  pub username : List ℕ
  pub password : Option (List ℕ)
  pub path : List ℕ
  pub query : Option (List ℕ)
  pub fragment : Option (List ℕ)
  pub port : Option ℕ
  pub port_or_known_default : Option ℕ

-- The libraries: postcard's decoders (each returns what is left of the bytes) and its encoder,
-- `Url::parse`, and `str::parse` for an address.
pub record Libraries : Type 0 where
  pub crypto : Crypto
  pub take_u16 : List ℕ → Option (ℕ × List ℕ)
  pub take_payload : List ℕ → Option (Payload × List ℕ)
  pub take_delete : List ℕ → Option (DeletePayload × List ℕ)
  pub encode_entry : Entry → Option (List ℕ)
  pub parse_url : List ℕ → Option Url
  pub parse_ip : List ℕ → Option Ip
