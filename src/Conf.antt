-- ===== src/Conf.antt =====
-- src/utils/conf.c and the address conversions of src/utils/utils.c. `inet_pton` and the calls that
-- `argp_parse` makes are parameters. An address is the list of its bytes in memory.
use baka_dns.Base.{ℕ, Option, none, some, List, [], ◌∷◌, ◌==◌, if◌then◌else◌}
use baka_dns.Message.{IntRet, ret, minus_one}

-- `inet_pton` for the two families: the bytes of the address, if the string is one.
pub record InetPton : Type 0 where
  pub inet : List ℕ → Option (List ℕ)
  pub inet6 : List ℕ → Option (List ℕ)

-- The results and `*dest`, which an error leaves alone.
unfoldable pub ipv4_convert : InetPton → List ℕ → List ℕ → IntRet × List ℕ
ipv4_convert pton src dest = elim (pton.inet src) [
  | some res ↦ (ret 1, res)
  | none ↦ (minus_one, dest)
]

unfoldable pub ipv6_convert : InetPton → List ℕ → List ℕ → IntRet × List ℕ
ipv6_convert pton src dest = elim (pton.inet6 src) [
  | some res ↦ (ret 1, res)
  | none ↦ (minus_one, dest)
]

-- `struct dns_config`; a string is its bytes, and a pointer that is not set is NULL. The field
-- `_external_dns` is `external_dns_addr` here.
pub record DnsConfig : Type 0 where
  pub verbose : ℕ
  pub dot_enable : ℕ
  pub recursion_enabled : ℕ
  pub relay_file_path : Option (List ℕ)
  pub external_dns : Option (List ℕ)
  pub external_dns_addr : List ℕ

-- `conf` before the command line is read.
abbrev pub zero_config : DnsConfig
zero_config = record {
  verbose = 0;
  dot_enable = 0;
  recursion_enabled = 0;
  relay_file_path = none;
  external_dns = none;
  external_dns_addr = 0 ∷ 0 ∷ 0 ∷ 0 ∷ [];
}

-- "relay.txt"
abbrev pub default_relay_file : List ℕ
default_relay_file = 114 ∷ 101 ∷ 108 ∷ 97 ∷ 121 ∷ 46 ∷ 116 ∷ 120 ∷ 116 ∷ 0 ∷ []

-- "10.3.179.118"
abbrev pub default_external_dns : List ℕ
default_external_dns = 49 ∷ 48 ∷ 46 ∷ 51 ∷ 46 ∷ 49 ∷ 55 ∷ 57 ∷ 46 ∷ 49 ∷ 49 ∷ 56 ∷ 0 ∷ []

abbrev pub argp_key_arg : ℕ
argp_key_arg = 0

abbrev pub argp_err_unknown : ℕ
argp_err_unknown = 7

-- `parse_opt`: the result, and `*state->input`. The keys are 'v', 't', 'r' and ARGP_KEY_ARG.
unfoldable pub parse_opt : ℕ → Option (List ℕ) → DnsConfig → ℕ × DnsConfig
parse_opt key arg conf =
    if key == 118
    then (0, record conf { verbose = 1 })
    else if key == 116
    then (0, record conf { dot_enable = 1 })
    else if key == 114
    then (0, record conf { relay_file_path = arg })
    else if key == argp_key_arg
    then (0, record conf { external_dns = arg })
    else (argp_err_unknown, conf)

-- The calls of `parse_opt` that `argp_parse` makes, one after the other.
unfoldable pub argp_parse : List (ℕ × Option (List ℕ)) → DnsConfig → DnsConfig
argp_parse [] conf = conf
argp_parse ((key, arg) ∷ calls) conf = argp_parse calls (parse_opt key arg conf).1

abbrev pub or_default : Option (List ℕ) → List ℕ → List ℕ
or_default none default = default
or_default (some s) default = s

-- `parse_cmd`: the result, and `*confptr`.
unfoldable pub parse_cmd : InetPton → List (ℕ × Option (List ℕ)) → DnsConfig → IntRet × DnsConfig
parse_cmd pton calls conf =
    let conf1 = argp_parse calls conf in
    let file = or_default conf1.relay_file_path default_relay_file in
    let external = or_default conf1.external_dns default_external_dns in
    let conf2 = record conf1 { relay_file_path = some file; external_dns = some external } in
    let converted = ipv4_convert pton external (0 ∷ 0 ∷ 0 ∷ 0 ∷ []) in
    elim converted.0 [
      | minus_one ↦ (minus_one, conf2)
      | ret _ ↦ (ret 1, record conf2 { external_dns_addr = converted.1 })
    ]
