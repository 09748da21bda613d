-- ===== src/Adapters/Browser/Failing.antt =====
-- An initialization that fails half way.
use lidenal85_blip.Base.{length, ℕ, ◌+◌, ◌-◌, ◌≡◌, refl, ◌∙◌, true, false, List, [], ◌∷◌, arith}
use lidenal85_blip.Contracts.Floats.{Raised, runtime_error, ok, raise}
use lidenal85_blip.Adapters.Browser.{init, initialize, get_context, close, PlaywrightBrowser, Calls}

abbrev pub all_well : Calls
all_well = record { first_call = ok tt; second_call = ok tt; third_call = ok tt }

-- When the browser starts and its context cannot be made, `initialize` raises, and after that it
-- returns and does nothing, with whatever Playwright would do, while `get_context` raises.
pub no_context_stays :
    (calls later : Calls) (b : PlaywrightBrowser) (e : Raised)
    → b.browser ≡ false
    → b.context ≡ false
    → calls.first_call ≡ ok tt
    → calls.second_call ≡ ok tt
    → calls.third_call ≡ raise e
    → let (b', failed) = initialize true calls b in
      (failed ≡ raise e)
      × (initialize true later b' ≡ (b', ok tt))
      × ((f : Raised) × (get_context true b' ≡ raise f))
unfolding initialize get_context
no_context_stays calls later b e no_browser no_context started launched fails = (
  ground arith,
  ground arith,
  (record { class_of = runtime_error; text = "Browser not initialized" }, ground arith),
)

-- initializations that start a driver and cannot launch the browser
unfoldable pub launch_fails : List Raised → PlaywrightBrowser → PlaywrightBrowser
launch_fails [] b = b
launch_fails (e ∷ es) b =
    launch_fails es
      (initialize true (record { first_call = ok tt; second_call = raise e; third_call = ok tt })
        b).0

-- a browser that was not launched, with a driver
abbrev driven : ℕ → PlaywrightBrowser
driven n = record { playwright = true; browser = false; context = false; drivers = n }

launch_fails-driven :
    (es : List Raised) (n : ℕ) → launch_fails es (driven n) ≡ driven (n + length es)
unfolding launch_fails initialize
launch_fails-driven [] n = ground arith
launch_fails-driven (e ∷ es) n = launch_fails-driven es (n + 1) ∙ ground arith

-- Each initialization whose launch fails leaves a driver running, and `close` stops one of them
-- at most.
pub drivers_leak :
    (es : List Raised) → (close all_well (launch_fails es init)).0.drivers ≡ length es - 1
unfolding close init launch_fails initialize
drivers_leak [] = refl
drivers_leak (e ∷ es) = rw (launch_fails-driven es 1) (omega arith)
