-- ===== src/Gate/Window.antt =====
-- One client at a time: the window in which the gate refuses a key.
use lidenal85_blip.Base.{dec_lt, ℕ, ◌<◌, String, ◌≡◌, sym, ◌∙◌, ◌≢◌, ◌↔◌, none, some, arith}
use lidenal85_blip.Redis.{StringStore, IsLawful}
use lidenal85_blip.Pipeline.Orchestrator.{accepted, duplicate}
use lidenal85_blip.Gate.{lock_key, check_and_set, CheckResult}

accepted-ne-duplicate : accepted ≢ duplicate
accepted-ne-duplicate h = cc

module _ (S : StringStore String) (lawful : IsLawful S) (ttl : ℕ) (pos : 0 < ttl) where
  open S use {Db, get, elapse}

  -- `check_and_set` with nothing between its commands
  abbrev pub check_alone : String → String → Db → Db × CheckResult
  check_alone key now d = check_and_set S ttl key now (λ e. e) (λ e. e) d

  check_alone_accepted :
      (key now : String) (d : Db)
      → get (lock_key key) d ≡ none
      → ((check_alone key now d).1.status ≡ accepted)
        × (get (lock_key key) (check_alone key now d).0 ≡ some now)
        × (S.ttl (lock_key key) (check_alone key now d).0 ≡ ttl)
  unfolding check_and_set
  check_alone_accepted key now d h = ground (
    arith,
    lawful.set_nx_ex_answer (lock_key key) now ttl d,
    lawful.get-set_nx_ex (lock_key key) (lock_key key) now ttl d pos,
    lawful.ttl-set_nx_ex (lock_key key) (lock_key key) now ttl d,
  )

  check_alone_duplicate :
      (key now old : String) (d : Db)
      → get (lock_key key) d ≡ some old
      → (check_alone key now d).1.status ≡ duplicate
  unfolding check_and_set
  check_alone_duplicate key now old d h =
      ground (arith, lawful.set_nx_ex_answer (lock_key key) now ttl d)

  -- At a lawful server, with a positive time to live and nothing between the commands of a call,
  -- a key that is not set is accepted; after that the gate answers DUPLICATE exactly while less
  -- than the time to live has passed.
  pub check_alone_window :
      (key now now' : String) (n : ℕ) (d : Db)
      → get (lock_key key) d ≡ none
      → let first = check_alone key now d in
        let second = check_alone key now' (elapse n first.0) in
        (first.1.status ≡ accepted) × ((second.1.status ≡ duplicate) ↔ (n < ttl))
  check_alone_window key now now' n d fresh =
      let (taken, set, left) = check_alone_accepted key now d fresh in
      let d' = (check_alone key now d).0 in
      let after = lawful.get-elapse (lock_key key) n d' in
      let second = check_alone key now' (elapse n d') in
      elim (dec_lt n ttl) [
        | yes early ↦ (
          taken,
          (λ _. early, λ _. check_alone_duplicate key now' now (elapse n d') (ground arith)),
        )
        | no late ↦
            let again = check_alone_accepted key now' (elapse n d') (ground arith) in
            (
              taken,
              (
                λ refused. absurd (accepted-ne-duplicate (sym again.0 ∙ refused)),
                λ h. absurd (late h),
              ),
            )
      ]
