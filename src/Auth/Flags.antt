-- ===== src/Auth/Flags.antt =====
-- crates/tymuxd/src/auth.rs: what a flag with its value next to it does, the variables whatever.
use tymux.Base.Bytes.{Bytes, bytes_eq_self}
use tymux.Base.{◌≡◌, refl, false, Option, some, List, [], ◌∷◌, ◌++◌, arith}
use tymux.Auth.{
  has_flag, value_after, parse, resolve_token, token_flag, socket_path_flag,
  resolve_uds_socket_path,
}

-- The value behind the first occurrence of a flag is its value, whatever follows.
pub value_after-append :
    (name : Bytes) (before : List Bytes) (v : Bytes) (rest : List Bytes)
    → has_flag name before ≡ false
    → value_after name (before ++ name ∷ v ∷ rest) ≡ some v
value_after-append name [] v rest h = rw (bytes_eq_self name) refl
value_after-append name (a ∷ []) v rest h = ground (arith, bytes_eq_self name)
value_after-append name (a ∷ b ∷ before) v rest h =
    ground (arith, value_after-append name (b ∷ before) v rest)

-- With the flag and a value next to it, none before it, the token is what `parse` makes of the value:
-- the variable is not consulted, also if the value is empty.
pub resolve_token-parse :
    (before : List Bytes) (v : Bytes) (rest : List Bytes) (env_value : Option Bytes)
    → has_flag token_flag before ≡ false
    → resolve_token (before ++ token_flag ∷ v ∷ rest) env_value ≡ parse v
unfolding resolve_token
resolve_token-parse before v rest env_value h =
    rw (value_after-append token_flag before v rest h) refl

-- With the flag and a value next to it, none before it, the socket's path is the value, also if it is
-- empty, whatever the variable and the default path.
pub resolve_uds_socket_path-flag :
    (before : List Bytes) (v : Bytes) (rest : List Bytes) (env_value : Option Bytes)
    (default_path : Bytes)
    → has_flag socket_path_flag before ≡ false
    → resolve_uds_socket_path (before ++ socket_path_flag ∷ v ∷ rest) env_value default_path ≡ v
unfolding resolve_uds_socket_path
resolve_uds_socket_path-flag before v rest env_value default_path h =
    rw (resolve_uds_socket_path, value_after-append socket_path_flag before v rest h) refl
