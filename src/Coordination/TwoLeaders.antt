-- ===== src/Coordination/TwoLeaders.antt =====
-- coordination/lease.py and leader.py: the course of a lease, and of elections one after the
-- other.
use lidenal85_blip.Base.{ℕ, ◌<◌, String, ◌≡◌, ◌≢◌, Bool, true, none, some, arith}
use lidenal85_blip.Redis.{StringStore, IsLawful}
use lidenal85_blip.Coordination.{
  lease_key, with_lease, try_become_leader, ensure_leader, leave, after_try, Leader, entered,
  already_held,
}

module _ (S : StringStore String) (lawful : IsLawful S) where
  open S use {Db, get}

  -- While a lease is held, entering is refused.
  pub with_lease_refuses {ℓ} :
      {A : Type ℓ} (ttl : ℕ) (key v other : String) (block : Db → Db × A) (d : Db)
      → get (lease_key key) d ≡ some other
      → (with_lease S ttl key v block d).1 ≡ already_held
  unfolding with_lease
  with_lease_refuses ttl key v other block d held =
      ground (arith, lawful.set_nx_ex_answer (lease_key key) v ttl d)

  -- At a lawful server, with a lease value that is not empty, a free lease is entered with the
  -- value of its block, and if the block leaves the lease's value alone the lease is free again
  -- afterwards.
  pub with_lease_releases {ℓ} :
      {A : Type ℓ} (ttl : ℕ) (key v : String) (block : Db → Db × A) (d : Db)
      → v ≢ ""
      → get (lease_key key) (block (S.set_nx_ex (lease_key key) v ttl d).0).0 ≡ some v
      → get (lease_key key) d ≡ none
      → ((with_lease S ttl key v block d).1
          ≡ entered (block (S.set_nx_ex (lease_key key) v ttl d).0).1)
        × (get (lease_key key) (with_lease S ttl key v block d).0 ≡ none)
  unfolding with_lease leave
  with_lease_releases ttl key v block d named kept free =
      let d' = (block (S.set_nx_ex (lease_key key) v ttl d).0).0 in
      ground (
        arith,
        lawful.set_nx_ex_answer (lease_key key) v ttl d,
        lawful.get-delete (lease_key key) (lease_key key) d',
      )

  try_free :
      (v : String) (l : Leader S) (d : Db)
      → 0 < l.lease_ttl
      → v ≢ ""
      → get (lease_key "leader_lock") d ≡ none
      → ((try_become_leader S v l d).0.is_leader ≡ true)
        × ((try_become_leader S v l d).2 ≡ true)
        × (get (lease_key "leader_lock") (try_become_leader S v l d).1 ≡ none)
  unfolding try_become_leader after_try
  try_free v l d pos named free =
      let block : Db → Db × Bool = (λ e. (e, true)) in
      let set =
        lawful.get-set_nx_ex (lease_key "leader_lock") (lease_key "leader_lock") v l.lease_ttl d
          pos in
      let kept : get (lease_key "leader_lock")
            (S.set_nx_ex (lease_key "leader_lock") v l.lease_ttl d).0
          ≡ some v =
        ground arith in
      let r = with_lease_releases l.lease_ttl "leader_lock" v block d named kept free in
      ground arith

  -- At a lawful server, with positive times to live and lease values that are not empty, two
  -- services that try one after the other, from a free lock, both become leaders and both pass
  -- the guard.
  pub two_leaders :
      (v w : String) (l m : Leader S) (d : Db)
      → 0 < l.lease_ttl
      → 0 < m.lease_ttl
      → v ≢ ""
      → w ≢ ""
      → get (lease_key "leader_lock") d ≡ none
      → let first = try_become_leader S v l d in
        let second = try_become_leader S w m first.1 in
        (ensure_leader S first.0 ≡ true) × (ensure_leader S second.0 ≡ true) × (second.2 ≡ true)
  unfolding ensure_leader
  two_leaders v w l m d lpos mpos vn wn free =
      let one = try_free v l d lpos vn free in
      let two = try_free w m (try_become_leader S v l d).1 mpos wn one.2 in ground arith
