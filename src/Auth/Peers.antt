-- ===== src/Auth/Peers.antt =====
-- crates/tymuxd/src/auth.rs: whom the daemon's Unix socket lets in.
use tymux.Base.{
  ℕ, ◌≡◌, ◌↔◌, inl, inr, Bool, true, Option, none, some, ◌==◌, arith, ok, Bool-cases, Option-cases,
}
use tymux.Auth.{PeerIdentity, peer_is_group_member, peer_is_authorized, decide, uds_call}

-- A peer that the socket is for: the daemon's own user, or a member of the allowed group.
pub data Entitled (member_linux : ℕ → ℕ → Bool) (daemon_uid : ℕ) (allowed_gid : Option ℕ)
    : Option PeerIdentity → Type 0 where
  owner :
      (peer : PeerIdentity)
      → peer.uid ≡ daemon_uid
      → Entitled member_linux daemon_uid allowed_gid (some peer)
  by_process :
      (peer : PeerIdentity) (pid gid : ℕ)
      → allowed_gid ≡ some gid
      → peer.pid ≡ some pid
      → member_linux pid gid ≡ true
      → Entitled member_linux daemon_uid allowed_gid (some peer)
  by_primary :
      (peer : PeerIdentity) (gid : ℕ)
      → allowed_gid ≡ some gid
      → peer.pid ≡ none
      → peer.gid ≡ gid
      → Entitled member_linux daemon_uid allowed_gid (some peer)

module _ (member_linux : ℕ → ℕ → Bool) where
  entitled :
      (daemon_uid : ℕ) (allowed_gid : Option ℕ) (peer : PeerIdentity) (count : ℕ)
      → uds_call count (some (decide member_linux daemon_uid allowed_gid (some peer)))
        ≡ (count, ok tt)
      → Entitled member_linux daemon_uid allowed_gid (some peer)
  unfolding uds_call decide peer_is_authorized peer_is_group_member
  entitled daemon_uid allowed_gid peer count h = elim (Bool-cases (peer.uid == daemon_uid)) [
    | inl e ↦ owner peer (ground arith)
    | inr e ↦ elim (Option-cases allowed_gid) [
      | inl f ↦ absurd (ground (arith, e, f, h))
      | inr (gid, f) ↦ elim (Option-cases peer.pid) [
        | inl g ↦ by_primary peer gid f g (ground (arith, e, f, g, h))
        | inr (pid, g) ↦ by_process peer pid gid f g (ground (arith, e, f, g, h))
      ]
    ]
  ]

  -- A request over a connection gets in, and leaves the counter, exactly when the kernel names the
  -- peer and the peer is the daemon's user or in the allowed group.
  pub uds_call-Entitled :
      (daemon_uid : ℕ) (allowed_gid : Option ℕ) (cred : Option PeerIdentity) (count : ℕ)
      → (uds_call count (some (decide member_linux daemon_uid allowed_gid cred)) ≡ (count, ok tt))
        ↔ Entitled member_linux daemon_uid allowed_gid cred
  unfolding uds_call decide peer_is_authorized peer_is_group_member
  uds_call-Entitled daemon_uid allowed_gid none count = ((λ h. ground arith), (λ h. elim h [ ]))
  uds_call-Entitled daemon_uid allowed_gid (some peer) count = (
    (λ h. entitled daemon_uid allowed_gid peer count h),
    (λ h. elim h [
      | owner p e ↦ ground arith
      | by_process p pid gid e f g ↦ ground (arith, e, f, g)
      | by_primary p gid e f g ↦ ground (arith, e, f, g)
    ]),
  )
