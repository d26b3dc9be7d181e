-- ===== src/PluginWorker/Examples.antt =====
-- A plugin whose call fails, for a concrete run of the theorem.
use get_magnet.Common.{false, none, String, [], ◌∷◌, Result, ok}
use get_magnet.PluginTasks.Examples.{kept, the_claim, one_running}
use get_magnet.PluginWorker.{Handler, failure, process_safely}
use get_magnet.PluginWorker.Settling.{Settles, Gives, process_safely-Settles}

abbrev failing : Handler String
failing = record {
  code = "upload";
  handle = λ task. failure (record { message = "timeout"; permanent = false });
  poll = none;
  on_complete = none;
}

abbrev as_it_is : String → Result String String
as_it_is s = ok s

process_safely-Settles_example :
    Settles
      (Gives (failing ∷ []) the_claim)
      1
      (process_safely kept as_it_is (failing ∷ []) 300 the_claim one_running)
process_safely-Settles_example =
    process_safely-Settles kept as_it_is (failing ∷ []) 300 the_claim one_running
