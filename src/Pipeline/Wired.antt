-- ===== src/Pipeline/Wired.antt =====
-- a2a/a2a-service/host/executor.py: the service and the planner that `PaywallExecutor.__init__` makes.
use cronos_stream.Prelude.{true}
use cronos_stream.World.{World}
use cronos_stream.Service.Discover.{discover_agents}
use cronos_stream.Service.Choice.{apply_choice}
use cronos_stream.Service.Fetch.{fetch_resource}
use cronos_stream.Service.Format.{format_result}
use cronos_stream.Planner.{OpenAiClient, choose_target}
use cronos_stream.Pipeline.{Parts}

-- `self.service` and `self.planner`; `fetch_resource` is called with its default, streaming on.
unfoldable pub paywall_parts : World → OpenAiClient → Parts
paywall_parts w client = record {
  discover_agents = discover_agents w;
  choose_target = choose_target w client;
  apply_choice = apply_choice;
  fetch_resource = λ target. fetch_resource w target true;
  format_result = format_result w;
  repr = w.repr;
}
