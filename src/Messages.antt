-- ===== src/Messages.antt =====
-- a2a/a2a-service/host/lib/enums/message.py and name.py: the texts of the messages and the artifact's
-- name. An enum member in an f-string is its text.
use cronos_stream.Prelude.{String}

abbrev pub paywall_planning : String
paywall_planning = "Planning paywall request"

abbrev pub paywall_discovering_agents : String
paywall_discovering_agents = "Discovering agents"

abbrev pub paywall_selecting_target : String
paywall_selecting_target = "Selecting target agent/resource"

abbrev pub paywall_fetching_resource : String
paywall_fetching_resource = "Fetching resource (may trigger 402)"

abbrev pub paywall_no_agents : String
paywall_no_agents = "No agents discovered"

abbrev pub paywall_no_target : String
paywall_no_target = "No suitable agent/resource found in discovered AgentCards"

abbrev pub paywall_fetch_failed : String
paywall_fetch_failed = "Fetch failed"

abbrev pub paywalled_resource : String
paywalled_resource = "paywalled_resource"
