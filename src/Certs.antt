-- ===== src/Certs.antt =====
-- internal/certs/selfsigned.go. `parse` is net.ParseIP with the text of the address, `sign` is what
-- crypto/ecdsa and crypto/x509 make of the names and addresses: the two PEM bodies. A directory is a
-- map from paths to files with their modes.
pub mod Covers
use dsh_fleet.Base.{
  ℕ, ◌+◌, ◌*◌, Bool, true, false, not, ◌&&◌, ◌||◌, List, [], ◌∷◌, ◌++◌, Option, none, some,
  if◌then◌else◌, Bytes, codes, same,
}
use dsh_fleet.Base.Dict.{Dict, find, put}
use dsh_fleet.Base.Result.{Result, ok, err}

-- Validity, in seconds
abbrev pub validity : ℕ
validity = 397 * 24 * 3600

pub record File : Type 0 where
  pub mode : ℕ
  pub body : Bytes

pub record Generated : Type 0 where
  pub cert_path : Bytes
  pub key_path : Bytes
  pub dns_names : List Bytes
  pub ips : List Bytes
  pub not_after : ℕ

pub data CertError : Type 0 where
  cannot_generate cannot_create_directory cannot_marshal : CertError
  cannot_write : Bytes → CertError

-- How writing a path goes: it cannot be opened, it breaks off after some bytes, or it is done.
pub data Writing : Type 0 where
  refused complete : Writing
  broken : Bytes → Writing

-- What the operating system does: MkdirAll, and writing a path.
pub record System : Type 0 where
  pub makes_directory : Bool
  pub writes : Bytes → Writing

module _ (parse : Bytes → Option Bytes) where
  abbrev pub add_host : Option Bytes → Bytes → List Bytes × List Bytes → List Bytes × List Bytes
  add_host (some ip) host (dns, ips) = (dns, ips ++ ip ∷ [])
  add_host none host (dns, ips) =
      if not (same host []) && not (same host (codes "localhost"))
      then (dns ++ host ∷ [], ips)
      else (dns, ips)

  -- The loop over the hosts.
  unfoldable pub split_hosts : List Bytes → List Bytes × List Bytes → List Bytes × List Bytes
  split_hosts [] names = names
  split_hosts (host ∷ hosts) names = split_hosts hosts (add_host (parse host) host names)

  -- DNSNames and IPAddresses of the template
  unfoldable pub names_of : List Bytes → List Bytes × List Bytes
  unfolding split_hosts
  names_of hosts = split_hosts hosts (codes "localhost" ∷ [], codes "127.0.0.1" ∷ codes "::1" ∷ [])

  -- The file opened with O_TRUNC: the mode is for a new file, and one that is there keeps its own.
  abbrev pub overwritten : Dict File → Bytes → ℕ → Bytes → Dict File
  overwritten fs path mode body = elim (find path fs) [
    | none ↦ put path (record { mode = mode; body = body }) fs
    | some old ↦ put path (record { mode = old.mode; body = body }) fs
  ]

  -- writePEM: whether it went well, and the files
  unfoldable pub write_pem : System → Dict File → Bytes → ℕ → Bytes → Bool × Dict File
  write_pem sys fs path mode body = elim (sys.writes path) [
    | refused ↦ (false, fs)
    | broken part ↦ (false, overwritten fs path mode part)
    | complete ↦ (true, overwritten fs path mode body)
  ]

  abbrev pub wrote_key : Generated → Bool × Dict File → Result CertError Generated × Dict File
  wrote_key g (false, fs) = (err (cannot_write g.key_path), fs)
  wrote_key g (true, fs) = (ok g, fs)

  -- From the first file on; `key` is the PEM body of the key, if it can be marshalled.
  abbrev pub wrote_cert :
      System → Generated → Option Bytes → Bool × Dict File → Result CertError Generated × Dict File
  wrote_cert sys g key (false, fs) = (err (cannot_write g.cert_path), fs)
  wrote_cert sys g none (true, fs) = (err cannot_marshal, fs)
  wrote_cert sys g (some key) (true, fs) = wrote_key g (write_pem sys fs g.key_path 384 key)

  -- filepath.Join of a directory, written as Clean writes it, and a name
  abbrev pub join : Bytes → Bytes → Bytes
  join dir name = dir ++ codes "/" ++ name

  -- SelfSigned; modes are 0644 and 0600
  unfoldable pub self_signed :
      System
      → (List Bytes × List Bytes → Option (Bytes × Option Bytes))
      → ℕ
      → Dict File
      → Bytes
      → List Bytes
      → Result CertError Generated × Dict File
  unfolding names_of write_pem
  self_signed sys sign now fs dir hosts =
      let names = names_of hosts in
      let g : Generated = record {
        cert_path = join dir (codes "cert.pem");
        key_path = join dir (codes "key.pem");
        dns_names = names.0;
        ips = names.1;
        not_after = now + validity;
      } in
      elim (sign names) [
        | none ↦ (err cannot_generate, fs)
        | some (cert, key) ↦
            if sys.makes_directory
            then wrote_cert sys g key (write_pem sys fs g.cert_path 420 cert)
            else (err cannot_create_directory, fs)
      ]

-- An address of an interface of this host.
pub record Address : Type 0 where
  pub is_loopback : Bool
  pub is_link_local : Bool
  -- the text of To4, if it is an IPv4 address
  pub v4 : Option Bytes

-- LocalAddresses
unfoldable pub local_addresses : Option (List Address) → List Bytes
local_addresses none = []
local_addresses (some []) = []
local_addresses (some (a ∷ as')) =
    let rest = local_addresses (some as') in
    if a.is_loopback || a.is_link_local
    then rest
    else elim a.v4 [ none ↦ rest | some ip ↦ ip ∷ rest ]
