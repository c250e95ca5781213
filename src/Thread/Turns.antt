-- ===== src/Thread/Turns.antt =====
-- agios_thread.c: the pauses of the thread of the library.
use forwarding_explorer_agio.Prelude.{◌≡◌, false, Option, none, some}
use forwarding_explorer_agio.Schedulers.{IoScheduler}
use forwarding_explorer_agio.Thread.{Worker}
use forwarding_explorer_agio.Thread.Pauses.{IsFixed}

abbrev Starts : Option Worker → Type 0
Starts none = Unit {0}
Starts (some w) = IsFixed w

abbrev Fixes : Option IoScheduler → Type 0
Fixes none = Unit {0}
Fixes (some s) = s.is_dynamic ≡ false
