-- ===== src/Tests/Clients.antt =====
-- Two clients that check one key at the same time, and one of them again after the time to live.
use lidenal85_blip.Base.{string_eq, ℕ, ◌+◌, ◌≡◌, refl, [], ◌∷◌, arith}
use lidenal85_blip.Gate.{lock_key}
use lidenal85_blip.Gate.Held.{AreApart}
use lidenal85_blip.Gate.Clients.{
  System, Reach, begins, gets, sets, rereads, waits, here, next, between_calls, before_get, update,
  after_get, after_set, recorded, accepted_apart,
}
use lidenal85_blip.Tests.Store.{memory, memory-IsLawful, nothing}

abbrev Service : Type 0
Service = System memory 60

abbrev idle : Service
idle = record { db = nothing; now = 0; clients = λ i. between_calls; taken = [] }

abbrev begin : ℕ → Service → Service
begin i s = record s { clients = update s.clients i (before_get "k") }

abbrev do_get : ℕ → Service → Service
do_get i s = record s {
  clients = update s.clients i (after_get "k" (memory.get (lock_key "k") s.db));
}

abbrev do_set : ℕ → Service → Service
do_set i s =
    let r = memory.set_nx_ex (lock_key "k") "t" 60 s.db in
    record s {
      db = r.0;
      clients = update s.clients i (after_set "k" r.1);
      taken = recorded "k" s.now r.1 s.taken;
    }

abbrev reread : ℕ → Service → Service
reread i s = record s { clients = update s.clients i between_calls }

abbrev wait : ℕ → Service → Service
wait n s = record s { db = memory.elapse n s.db; now = s.now + n }

abbrev raced : Service
raced = reread 1 (do_set 1 (do_set 0 (do_get 1 (do_get 0 (begin 1 (begin 0 idle))))))

race : Reach memory 60 idle raced
unfolding lock_key string_eq
race =
    next
      (next
        (next
          (next
            (next (next (next here (begins _ 0 "k" refl)) (begins _ 1 "k" refl))
              (gets _ 0 "k" refl))
            (gets _ 1 "k" refl))
          (sets _ 0 "k" "t" refl))
        (sets _ 1 "k" "t" refl))
      (rereads _ 1 "k" refl)

abbrev in_the_end : Service
in_the_end = do_set 1 (do_get 1 (begin 1 (wait 90 raced)))

race_again : Reach memory 60 idle in_the_end
unfolding lock_key string_eq
race_again =
    next (next (next (next race (waits _ 90)) (begins _ 1 "k" refl)) (gets _ 1 "k" refl))
      (sets _ 1 "k" "t" refl)

in_the_end_taken : in_the_end.taken ≡ ("k", 90) ∷ ("k", 0) ∷ []
unfolding lock_key string_eq
in_the_end_taken = refl

accepted_apart_example : AreApart memory 60 in_the_end.taken
accepted_apart_example =
    accepted_apart memory 60 memory-IsLawful (omega arith) nothing 0 in_the_end race_again
