-- ===== src/Admin/Tests.antt =====
-- A request for a page after a rotation.
use rpc_node_gateway.Prelude.{false, [], pos}
use rpc_node_gateway.Stats.{new_collector}
use rpc_node_gateway.Admin.{PageRequest, Desk, overview}

abbrev desk : Desk
desk = record {
  stats = new_collector;
  registry = record { pools = []; unhealthy_threshold = pos 3; healthy_threshold = pos 2 };
}

abbrev asks : PageRequest
asks = record {
  authorization = "bearer signed";
  access_token = "";
  page = overview;
  parsed_at = 2000;
  checked_at = 2000;
  store_fails = false;
}
