-- ===== src/Adapters/Browser.antt =====
-- adapters/playwright/browser.py: the one PlaywrightBrowser of the process. What Playwright's
-- calls do is given; `drivers` counts the drivers that were started and not stopped. Launch
-- options and log lines are left out.
pub mod Failing
pub mod Page
use lidenal85_blip.Base.{if◌then◌else◌, ℕ, ◌+◌, ◌-◌, String, Bool, true, false, not}
use lidenal85_blip.Contracts.Floats.{◌>>=◌, Outcome, runtime_error, ok, raise}

pub record PlaywrightBrowser : Type 0 where
  pub playwright : Bool
  pub browser : Bool
  pub context : Bool
  pub drivers : ℕ

-- the attributes of the class
unfoldable pub init : PlaywrightBrowser
init = record { playwright = false; browser = false; context = false; drivers = 0 }

-- What the calls of Playwright in one method do, in their order.
pub record Calls : Type 0 where
  pub first_call : Outcome (Unit {0})
  pub second_call : Outcome (Unit {0})
  pub third_call : Outcome (Unit {0})

runtime_failure : String → Outcome (Unit {0})
runtime_failure text = raise (record { class_of = runtime_error; text = text })

after_context : Outcome (Unit {0}) → PlaywrightBrowser → PlaywrightBrowser × Outcome (Unit {0})
after_context (ok _) b = (record b { context = true }, ok tt)
after_context (raise e) b = (b, raise e)

after_launch :
    Outcome (Unit {0})
    → Outcome (Unit {0})
    → PlaywrightBrowser
    → PlaywrightBrowser × Outcome (Unit {0})
after_launch (ok _) new_context b = after_context new_context (record b { browser = true })
after_launch (raise e) new_context b = (b, raise e)

after_start :
    Calls → Outcome (Unit {0}) → PlaywrightBrowser → PlaywrightBrowser × Outcome (Unit {0})
after_start calls (ok _) b =
    after_launch calls.second_call calls.third_call
      (record b { playwright = true; drivers = b.drivers + 1 })
after_start calls (raise e) b = (b, raise e)

-- `initialize`: `start`, `launch` and `new_context`
unfoldable pub initialize :
    Bool → Calls → PlaywrightBrowser → PlaywrightBrowser × Outcome (Unit {0})
unfolding after_context after_launch after_start
initialize installed calls b =
    if not installed
    then (b, ok tt)
    else if b.browser
    then (b, ok tt)
    else after_start calls calls.first_call b

-- `get_context`
unfoldable pub get_context : Bool → PlaywrightBrowser → Outcome (Unit {0})
unfolding runtime_failure
get_context installed b =
    if not installed
    then runtime_failure "Playwright not installed"
    else if not b.context
    then runtime_failure "Browser not initialized"
    else ok tt

-- `new_page`, by what the context's `new_page` does
unfoldable pub new_page : Bool → Outcome (Unit {0}) → PlaywrightBrowser → Outcome (Unit {0})
new_page installed page b = get_context installed b >>= λ _. page

-- one `if` of `close`: the call, if there is what it closes, and the attribute reset after it
close_part :
    Bool
    → Outcome (Unit {0})
    → (PlaywrightBrowser → PlaywrightBrowser)
    → PlaywrightBrowser
    → PlaywrightBrowser × Outcome (Unit {0})
close_part false call reset b = (b, ok tt)
close_part true (ok _) reset b = (reset b, ok tt)
close_part true (raise e) reset b = (b, raise e)

and_then :
    PlaywrightBrowser × Outcome (Unit {0})
    → (PlaywrightBrowser → PlaywrightBrowser × Outcome (Unit {0}))
    → PlaywrightBrowser × Outcome (Unit {0})
and_then (b, ok _) f = f b
and_then (b, raise e) f = (b, raise e)

-- `close`: `close` of the context and of the browser, and `stop`
unfoldable pub close : Calls → PlaywrightBrowser → PlaywrightBrowser × Outcome (Unit {0})
unfolding close_part and_then
close calls b =
    and_then
      (and_then (close_part b.context calls.first_call (λ x. record x { context = false }) b)
        (λ c. close_part c.browser calls.second_call (λ x. record x { browser = false }) c))
      (λ c.
        close_part c.playwright calls.third_call
          (λ x. record x { playwright = false; drivers = x.drivers - 1 }) c)
