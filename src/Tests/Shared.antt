-- ===== src/Tests/Shared.antt =====
-- The theorems of the gate and of the leases at the server in memory.
use lidenal85_blip.Base.{string_eq, ℕ, ◌<◌, String, ◌≡◌, refl, ◌≢◌, ◌↔◌, true, false, arith}
use lidenal85_blip.Pipeline.Orchestrator.{accepted, duplicate}
use lidenal85_blip.Gate.Window.{check_alone, check_alone_window}
use lidenal85_blip.Gate.Race.{}
use lidenal85_blip.Coordination.{try_become_leader, ensure_leader, Leader}
use lidenal85_blip.Coordination.TwoLeaders.{two_leaders}
use lidenal85_blip.Tests.Store.{memory, memory-IsLawful, nothing, Memory}

abbrev aged_by : ℕ → Memory String → Memory String
aged_by n d = memory.elapse n d

check_alone_window_example :
    ((check_alone memory memory-IsLawful 60 (omega arith) "k" "t0" nothing).1.status ≡ accepted)
    × (((check_alone memory memory-IsLawful 60 (omega arith) "k" "t1" (
            aged_by 30
              (check_alone memory memory-IsLawful 60 (omega arith) "k" "t0" nothing).0)).1.status
          ≡ duplicate)
        ↔ (30 < 60))
check_alone_window_example =
    check_alone_window memory memory-IsLawful 60 (omega arith) "k" "t0" "t1" 30 nothing refl

abbrev leader : Leader memory
leader = record { service_id = "a"; lease_ttl = 30; is_leader = false }

abbrev rival : Leader memory
rival = record { service_id = "b"; lease_ttl = 30; is_leader = false }

abbrev first_value : String
first_value = "v1"

abbrev second_value : String
second_value = "v2"

first_named : first_value ≢ ""
first_named h = cc

second_named : second_value ≢ ""
second_named h = cc

two_leaders_example :
    (ensure_leader memory (try_become_leader memory first_value leader nothing).0 ≡ true)
    × (ensure_leader memory
          (try_become_leader memory second_value rival
            (try_become_leader memory first_value leader nothing).1).0
        ≡ true)
    × ((try_become_leader memory second_value rival
          (try_become_leader memory first_value leader nothing).1).2
        ≡ true)
two_leaders_example =
    two_leaders memory memory-IsLawful first_value second_value leader rival nothing (omega arith)
      (omega arith) first_named second_named refl
