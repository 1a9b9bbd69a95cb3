-- ===== src/Auth.antt =====
-- crates/tymuxd/src/auth.rs: the flags and variables that set a daemon's token, socket and group, the
-- start-up gate, and the two interceptors that let a request in. Text is its bytes; environment
-- variables, the kernel's word on a peer and its groups, and `constant_time_eq` are parameters.
pub mod Flags
pub mod Gate
pub mod Peers
use tymux.Base.Bytes.{Bytes, bytes_eq}
use tymux.Base.{
  ℕ, zero, suc, ◌+◌, ◌%◌, ◌^◌, Bool, true, false, not, ◌&&◌, ◌||◌, Option, none, some, List, [],
  ◌∷◌, ◌++◌, ◌==◌, if◌then◌else◌, ◌>>=◌, Result, ok, err,
}

abbrev pub strip_prefix : Bytes → Bytes → Option Bytes
strip_prefix [] v = some v
strip_prefix (p ∷ ps) [] = none
strip_prefix (p ∷ ps) (c ∷ v) = let rest = strip_prefix ps v in if p == c then rest else none

abbrev pub is_empty : Bytes → Bool
is_empty [] = true
is_empty (x ∷ xs) = false

abbrev pub or_else : Option Bytes → Option Bytes → Option Bytes
or_else none b = b
or_else (some a) b = some a

abbrev pub not_empty : Option Bytes → Option Bytes
not_empty none = none
not_empty (some v) = if is_empty v then none else some v

abbrev pub has_flag : Bytes → List Bytes → Bool
has_flag name [] = false
has_flag name (a ∷ rest) = bytes_eq a name || has_flag name rest

-- `args.get(i + 1)` for the first position `i` of the flag.
abbrev pub value_after : Bytes → List Bytes → Option Bytes
value_after name [] = none
value_after name (a ∷ []) = none
value_after name (a ∷ b ∷ rest) =
    let later = value_after name (b ∷ rest) in if bytes_eq a name then some b else later

-- The first argument of the form `name=value`; `name` ends in `=`.
abbrev pub joined_value : Bytes → List Bytes → Option Bytes
joined_value name [] = none
joined_value name (a ∷ rest) = or_else (strip_prefix name a) (joined_value name rest)

abbrev pub flag_value : Bytes → List Bytes → Option Bytes
flag_value name args = or_else (value_after name args) (joined_value (name ++ (61 ∷ [])) args)

-- --token
abbrev pub token_flag : Bytes
token_flag = 45 ∷ 45 ∷ 116 ∷ 111 ∷ 107 ∷ 101 ∷ 110 ∷ []

-- --socket-path
abbrev pub socket_path_flag : Bytes
socket_path_flag = 45 ∷ 45 ∷ 115 ∷ 111 ∷ 99 ∷ 107 ∷ 101 ∷ 116 ∷ 45 ∷ 112 ∷ 97 ∷ 116 ∷ 104 ∷ []

-- --socket-group
abbrev pub socket_group_flag : Bytes
socket_group_flag =
    45 ∷ 45 ∷ 115 ∷ 111 ∷ 99 ∷ 107 ∷ 101 ∷ 116 ∷ 45 ∷ 103 ∷ 114 ∷ 111 ∷ 117 ∷ 112 ∷ []

-- --disable-tcp-loopback
abbrev pub disable_tcp_flag : Bytes
disable_tcp_flag =
    45 ∷ 45 ∷ 100 ∷ 105 ∷ 115 ∷ 97 ∷ 98 ∷ 108 ∷ 101 ∷ 45 ∷ 116 ∷ 99 ∷ 112 ∷ 45 ∷ 108 ∷ 111 ∷ 111
    ∷ 112 ∷ 98 ∷ 97 ∷ 99 ∷ 107 ∷ []

pub record BearerToken : Type 0 where
  pub bytes : Bytes

unfoldable pub parse : Bytes → Option BearerToken
parse raw = if is_empty raw then none else some (record { bytes = raw })

unfoldable pub resolve_token : List Bytes → Option Bytes → Option BearerToken
resolve_token args env_value = or_else (flag_value token_flag args) env_value >>= parse

unfoldable pub resolve_uds_socket_path : List Bytes → Option Bytes → Bytes → Bytes
resolve_uds_socket_path args env_value default_path =
    elim (or_else (flag_value socket_path_flag args) (not_empty env_value)) [
      | some path ↦ path
      | none ↦ default_path
    ]

unfoldable pub resolve_socket_group_name : List Bytes → Option Bytes → Option Bytes
resolve_socket_group_name args env_value =
    not_empty (or_else (flag_value socket_group_flag args) env_value)

unfoldable pub resolve_tcp_disabled : List Bytes → Option Bytes → Bool
resolve_tcp_disabled args env_value =
    has_flag disable_tcp_flag args || elim env_value [ none ↦ false | some v ↦ not (is_empty v) ]

-- The error is one message.
unfoldable pub check_non_loopback_requires_token :
    Bool → Option BearerToken → Result (Unit {0}) (Unit {0})
check_non_loopback_requires_token true token = ok tt
check_non_loopback_requires_token false none = err tt
check_non_loopback_requires_token false (some token) = ok tt

-- The counter is an atomic i64, in two's complement.
abbrev pub fetch_add_one : ℕ → ℕ
fetch_add_one count = (count + 1) % 2 ^ 64

pub data Status : Type 0 where
  missing_token invalid_token not_authorized : Status

-- `Bearer `
abbrev pub bearer_prefix : Bytes
bearer_prefix = 66 ∷ 101 ∷ 97 ∷ 114 ∷ 101 ∷ 114 ∷ 32 ∷ []

module _ (constant_time_eq : Bytes → Bytes → Bool) where
  -- `BearerAuthInterceptor::call` on the `authorization` header, if it is there and is text, and the
  -- rejection counter.
  unfoldable pub bearer_call : BearerToken → ℕ → Option Bytes → ℕ × Result (Unit {0}) Status
  bearer_call token count header = elim (header >>= strip_prefix bearer_prefix) [
    | none ↦ (fetch_add_one count, err missing_token)
    | some supplied ↦
        if constant_time_eq supplied token.bytes
        then (count, ok tt)
        else (fetch_add_one count, err invalid_token)
  ]

pub record PeerIdentity : Type 0 where
  pub uid : ℕ
  pub gid : ℕ
  pub pid : Option ℕ

pub record UdsAuthDecision : Type 0 where
  pub authorized : Bool
  pub peer_uid : Option ℕ
  pub peer_gid : Option ℕ

-- On Linux: `member_linux` is what /proc says of a process and a group.
module _ (member_linux : ℕ → ℕ → Bool) where
  unfoldable pub peer_is_group_member : PeerIdentity → ℕ → Bool
  peer_is_group_member peer gid = elim peer.pid [
    | some pid ↦ member_linux pid gid
    | none ↦ peer.gid == gid
  ]

  unfoldable pub peer_is_authorized : ℕ → Option ℕ → PeerIdentity → Bool
  peer_is_authorized daemon_uid allowed_gid peer =
      if peer.uid == daemon_uid
      then true
      else elim allowed_gid [ none ↦ false | some gid ↦ peer_is_group_member peer gid ]

  -- The decision that `PreAuthorizedUnixStream::new` makes, from `peer_cred().ok()`.
  unfoldable pub decide : ℕ → Option ℕ → Option PeerIdentity → UdsAuthDecision
  decide daemon_uid allowed_gid none = record {
    authorized = false;
    peer_uid = none;
    peer_gid = none;
  }
  decide daemon_uid allowed_gid (some cred) = record {
    authorized = peer_is_authorized daemon_uid allowed_gid cred;
    peer_uid = some cred.uid;
    peer_gid = some cred.gid;
  }

-- `UdsPeerCredInterceptor::call` on the decision that the request carries.
unfoldable pub uds_call : ℕ → Option UdsAuthDecision → ℕ × Result (Unit {0}) Status
uds_call count decision =
    if elim decision [ none ↦ false | some d ↦ d.authorized ]
    then (count, ok tt)
    else (fetch_add_one count, err not_authorized)
