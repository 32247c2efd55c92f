-- ===== src/Host/Names/Reads.antt =====
-- src/runtime/invoke.rs: that a node's text leads back to it, and a name to its holder.
use plasmoid.Prelude.{◌≡◌, ap, ◌∙◌, String, some, if◌then◌else◌, nat_eq, string_eq}
use plasmoid.Pid.{Pid, EndpointId}
use plasmoid.Pid.Key.{NodeIds, parse_node, node_of_bytes}
use plasmoid.Transport
use plasmoid.Host.{HostState, named, here, elsewhere, name, resolve_local, local_name, is_me}
use plasmoid.Host.Names.{node_of, hex_of}

module _ ⦃ids : NodeIds⦄ where
  parse_node-hex_of : (node : EndpointId) → parse_node (hex_of (some node)) ≡ some node
  unfolding parse_node
  parse_node-hex_of node =
      ap node_of_bytes (ids.hex_decode-hex_encode node)
      ∙ rw (ids.length-as_bytes node) (ids.from_bytes-as_bytes node)

  -- A name on the node of a pid: what `node_of` prints is read as that node, so the destination is
  -- here exactly if the pid is of this node, and is otherwise sent to the pid's own.
  pub resolve_local-node_of :
      (p : Pid) (n : String) (h : HostState)
      → resolve_local (named (node_of (some p)) n) h
        ≡ (if is_me h.endpoint p.node then here (name n) else elsewhere p.node (Transport.name n))
  unfolding resolve_local node_of
  resolve_local-node_of p n h = ap (λ o. local_name h.endpoint o n) (parse_node-hex_of p.node)
