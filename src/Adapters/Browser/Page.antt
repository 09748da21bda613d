-- ===== src/Adapters/Browser/Page.antt =====
-- adapters/playwright/context.py: the page that `browser_page` lends to its block. What
-- Playwright's calls and the block do is given; `set_default_timeout` does not raise.
use lidenal85_blip.Base.{if◌then◌else◌, ◌≡◌, Bool, true, false, arith}
use lidenal85_blip.Contracts.Floats.{◌>>=◌, Raised, Outcome, other_error, ok, raise}
use lidenal85_blip.Adapters.Browser.{
  init, initialize, get_context, new_page, close, PlaywrightBrowser, Calls,
}
use lidenal85_blip.Adapters.Browser.Failing.{all_well}

-- The calls on the way: those of `initialize`, of `new_page`, of the page's `close` and of the
-- browser's, and what the block does with a page or, without Playwright, with None.
pub record Visit : Type 0 where
  pub opening : Calls
  pub page : Outcome (Unit {0})
  pub page_close : Outcome (Unit {0})
  pub closing : Calls
  pub block : Bool → Outcome (Unit {0})

-- the exception of the `finally`, else the one before it
abbrev pub at_last : Outcome (Unit {0}) → Outcome (Unit {0}) → Outcome (Unit {0})
at_last (ok _) before = before
at_last (raise e) before = raise e

close_browser :
    Calls → Outcome (Unit {0}) → PlaywrightBrowser → PlaywrightBrowser × Outcome (Unit {0})
close_browser closing before b = let (b', closed) = close closing b in (b', at_last closed before)

close_page :
    Visit
    → Outcome (Unit {0})
    → PlaywrightBrowser
    → Outcome (Unit {0})
    → PlaywrightBrowser × Outcome (Unit {0})
close_page v before b (ok _) = close_browser v.closing before b
close_page v before b (raise e) = (b, raise e)

abbrev pub unbound : Raised
unbound = record {
  class_of = other_error;
  text = "cannot access local variable 'page' where it is not associated with a value";
}

-- the `finally` with a page and, when an exception came before it, with the name `page` unbound
with_page : Visit → PlaywrightBrowser → Outcome (Unit {0}) → PlaywrightBrowser × Outcome (Unit {0})
with_page v b (ok _) = close_page v (v.block true) b v.page_close
with_page v b (raise e) = (b, raise unbound)

with_browser :
    Visit → PlaywrightBrowser × Outcome (Unit {0}) → PlaywrightBrowser × Outcome (Unit {0})
with_browser v (b, ok _) = with_page v b (new_page true v.page b)
with_browser v (b, raise e) = (b, raise unbound)

-- `async with browser_page(…)` and its block
unfoldable pub browser_page :
    Bool → Visit → PlaywrightBrowser → PlaywrightBrowser × Outcome (Unit {0})
unfolding close_browser close_page with_page with_browser
browser_page installed v b =
    if installed then with_browser v (initialize true v.opening b) else (b, v.block false)

-- What is got before the block: the state then, and whether there is a page.
abbrev pub got_page : Visit → PlaywrightBrowser × Outcome (Unit {0})
got_page v =
    let (b, opened) = initialize true v.opening init in (b, opened >>= λ _. new_page true v.page b)

abbrev pub ends_with :
    Outcome (Unit {0})
    → PlaywrightBrowser × Outcome (Unit {0})
    → PlaywrightBrowser × Outcome (Unit {0})
ends_with block (b, ok _) = (init, block)
ends_with block (b, raise e) = (b, raise unbound)

-- With no browser yet, and calls of `close` that work: if a page is got, then after the block,
-- also when it raises, nothing is left open and the outcome is the block's; if none is got, an
-- exception about the name `page` takes the place of that of the call that failed, and what was
-- opened stays open.
pub browser_page_ends :
    (v : Visit)
    → v.page_close ≡ ok tt
    → v.closing ≡ all_well
    → browser_page true v init ≡ ends_with (v.block true) (got_page v)
unfolding browser_page new_page get_context initialize close init
browser_page_ends v closes works = ground arith
