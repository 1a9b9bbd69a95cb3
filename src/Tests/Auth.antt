-- ===== src/Tests/Auth.antt =====
-- Runs of the daemon's authentication.
use tymux.Base.Bytes.{Bytes, bytes_eq}
use tymux.Base.{ℕ, true, false, Bool, ◌≡◌, ◌↔◌, refl, none, some, [], ◌∷◌, ◌++◌, ◌==◌, ok}
use tymux.Auth.{
  BearerToken, parse, token_flag, resolve_token, resolve_socket_group_name, resolve_tcp_disabled,
  disable_tcp_flag, check_non_loopback_requires_token, bearer_prefix, bearer_call, uds_call, decide,
  PeerIdentity, is_empty,
}
use tymux.Auth.Gate.{bytes_eq-IsEquality, gate-guards}
use tymux.Auth.Peers.{Entitled, uds_call-Entitled}

-- --token=ab
abbrev joined : Bytes
joined = token_flag ++ (61 ∷ 97 ∷ 98 ∷ [])

joined_token : resolve_token (joined ∷ []) (some (99 ∷ [])) ≡ some (record { bytes = 97 ∷ 98 ∷ [] })
unfolding resolve_token parse
joined_token = refl

group_from_env : resolve_socket_group_name ([] ∷ []) (some (100 ∷ [])) ≡ some (100 ∷ [])
unfolding resolve_socket_group_name
group_from_env = refl

tcp_off : resolve_tcp_disabled (disable_tcp_flag ∷ []) none ≡ true
unfolding resolve_tcp_disabled
tcp_off = refl

gate-guards_example :
    (token : BearerToken) × (resolve_token (joined ∷ []) none ≡ some token)
    × (is_empty token.bytes ≡ false)
    × (((bearer_call bytes_eq token 7 (some (97 ∷ 98 ∷ []))).1 ≡ ok tt)
        ↔ (some (97 ∷ 98 ∷ []) ≡ some (bearer_prefix ++ token.bytes)))
unfolding resolve_token parse check_non_loopback_requires_token
gate-guards_example =
    gate-guards bytes_eq bytes_eq-IsEquality (joined ∷ []) none 7 (some (97 ∷ 98 ∷ [])) refl

-- Group 50 is that of every process.
abbrev in_group : ℕ → ℕ → Bool
in_group pid gid = gid == 50

abbrev guest : PeerIdentity
guest = record { uid = 1001; gid = 7; pid = some 4242 }

uds_call-Entitled_example :
    (uds_call 3 (some (decide in_group 1000 (some 50) (some guest))) ≡ (3, ok tt))
    ↔ Entitled in_group 1000 (some 50) (some guest)
uds_call-Entitled_example = uds_call-Entitled in_group 1000 (some 50) (some guest) 3
