-- ===== src/Targets/Derive.antt =====
-- derive_config_from_url of owtf/managers/target.py, with the name resolution of owtf/utils/ip.py.

pub mod Ports
use owtf.Base.{
  ℕ, ◌/◌, String, Bool, not, ◌&&◌, Option, none, some, List, [], ◌∷◌, str_eq, ◌==◌, if◌then◌else◌,
  mem_str, drop,
}
use text.Mathlib.Text.{starts_with}
use owtf.Base.Text.{cat, split_on}
use owtf.Exceptions.{Result, ok, err, unresolvable_target, ◌>>=◌}

-- urlparse(url); `port` raises a ValueError for a port that is no number.
pub record ParsedUrl : Type 0 where
  pub hostname : Option String
  pub path : String
  pub scheme : String
  pub port : Result (Option String)

pub record Net : Type 0 where
  -- `none` for a ValueError
  pub urlparse : String → Option ParsedUrl
  -- socket.inet_pton succeeds for one of the two families
  pub is_address : String → Bool
  -- `none` for a gaierror
  pub gethostbyname : String → Option String
  -- ip.strip().split("\n")
  pub ip_chunks : String → List String
  -- text.replace(old, new)
  pub replace : (text old new : String) → String

pub record TargetConfig : Type 0 where
  pub target_url : String
  pub host_name : String
  pub host_path : String
  pub url_scheme : String
  pub port_number : String
  pub host_ip : String
  pub alternative_ips : List String
  pub ip_url : String
  pub top_domain : String
  pub top_url : String

-- `".".join(chunks)`
unfoldable pub join_dots : List String → String
join_dots [] = ""
join_dots (chunk ∷ []) = chunk
join_dots (chunk ∷ next ∷ chunks) = cat chunk (cat "." (join_dots (next ∷ chunks)))

-- The host and the port of an address without a parsed port: where there is no single colon, the port
-- follows from the scheme.
unfoldable pub split_port : (scheme host : String) → String × String
unfolding split_on
split_port scheme host = elim (split_on 58 host) [
  | name ∷ port ∷ [] ↦ (name, port)
  | _ ↦ (host, if str_eq scheme "https" then "443" else "80")
]

module _ (net : Net) where
  -- get_ips_from_hostname and get_ip_from_hostname of owtf/utils/ip.py; the latter also sets the value
  -- "alternative_ips" of the configuration.
  abbrev ip_of : String → Result String
  ip_of hostname =
      if net.is_address hostname && not (str_eq hostname "")
      then ok hostname
      else elim (net.gethostbyname hostname) [ none ↦ err unresolvable_target | some ip ↦ ok ip ]

  unfoldable pub get_ips_from_hostname : String → Result (List String)
  get_ips_from_hostname hostname = do ip ← ip_of hostname; ok (net.ip_chunks ip)

  unfoldable pub get_ip_from_hostname : String → Result String
  get_ip_from_hostname hostname = do
    ip ← ip_of hostname
    ok (elim (net.ip_chunks ip) [ first ∷ second ∷ more ↦ first | _ ↦ ip ])

  abbrev given : Option String → Option String
  given none = none
  given (some s) = if str_eq s "" then none else some s

  -- The host, and host_path
  abbrev pub host_of : ParsedUrl → String × String
  host_of p = elim (given p.hostname) [
    | none ↦ (p.path, p.path)
    | some name ↦ (name, cat name p.path)
  ]

  unfoldable pub derive_config_from_url : String → Result TargetConfig
  unfolding split_port split_on join_dots get_ip_from_hostname get_ips_from_hostname
  derive_config_from_url target_url = elim (net.urlparse target_url) [
    | none ↦ err unresolvable_target
    | some p ↦
        let (host, host_path) = host_of p in
        if str_eq host_path "" then err unresolvable_target else (do
          parsed_port ← p.port
          let chosen : String × String = elim parsed_port [
            | none ↦ split_port p.scheme host
            | some port ↦ (host, port)
          ]
          let (name, port) = chosen
          host_ip ← get_ip_from_hostname name
          host_ips ← get_ips_from_hostname name
          let is_web = starts_with target_url "http"
          ok (record {
            target_url = target_url;
            host_name = name;
            host_path = host_path;
            url_scheme = p.scheme;
            port_number = port;
            host_ip = host_ip;
            alternative_ips = host_ips;
            ip_url = net.replace target_url name host_ip;
            top_domain =
                if is_web
                then (if mem_str name host_ips then name else join_dots (drop 1 (split_on 46 name)))
                else "";
            top_url = if is_web then cat p.scheme (cat "://" (cat name (cat ":" port))) else "";
          }))
  ]
