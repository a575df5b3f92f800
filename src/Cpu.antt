-- ===== src/Cpu.antt =====
-- sim_dpi/sim_cpu.cpp: the table of flows that the control CPU announces to the hardware. The
-- scopes of the simulator are in Cpu/Scope.
pub mod Flags
pub mod Scope
mod Examples
use tcp_hw.Base.{
  ℕ, ◌+◌, ◌*◌, ◌^◌, Bool, true, false, Option, none, some, List, [], ◌∷◌, length, get_elem?, set,
  ltb, if◌then◌else◌, ◌>>=◌, htonl, u32,
}

-- `struct flow_lookup`, of which `flows` holds ACTIVE_FLOW_CNT. The payloads are not used here.
pub record FlowLookup : Type 0 where
  pub host_ip : ℕ
  pub dest_ip : ℕ
  pub host_port : ℕ
  pub dest_port : ℕ
  pub flow_num : ℕ
  pub flow_drive_valid : Bool

-- What `set_new_flow` reads of `struct sock_state`.
pub record Endpoints : Type 0 where
  pub source_s_addr : ℕ
  pub source_port : ℕ
  pub dest_s_addr : ℕ
  pub dest_port : ℕ
  pub init_ack_num : ℕ

-- A call of `write_flowid_lookup`.
pub record FlowWrite : Type 0 where
  pub new_lookup_entry : List ℕ
  pub new_flowid : ℕ
  pub init_ack_num : ℕ

-- The entry that `set_new_flow` makes.
abbrev pub lookup_of : ℕ → Endpoints → FlowLookup
lookup_of flow_id state = record {
  host_ip = state.source_s_addr;
  dest_ip = state.dest_s_addr;
  host_port = state.source_port;
  dest_port = state.dest_port;
  flow_num = flow_id;
  flow_drive_valid = true;
}

-- Its call. The highest word of the vector, `stale`, is never set.
abbrev pub write_of : ℕ → ℕ → Endpoints → FlowWrite
write_of stale flow_id state =
    let lookup = lookup_of flow_id state in
    record {
      new_lookup_entry =
          u32 (lookup.host_port * 2 ^ 16 + lookup.dest_port)
          ∷ htonl lookup.dest_ip
          ∷ htonl lookup.host_ip
          ∷ stale
          ∷ [];
      new_flowid = flow_id;
      init_ack_num = state.init_ack_num;
    }

-- The call that is made, and the table.
unfoldable pub set_new_flow :
    ℕ → ℕ → Endpoints → List FlowLookup → Option (FlowWrite × List FlowLookup)
set_new_flow stale flow_id state flows =
    if ltb flow_id (length flows)
    then some (write_of stale flow_id state, set flows flow_id (lookup_of flow_id state))
    else none

-- The flag, which is cleared.
unfoldable pub tick_flow_valid : ℕ → List FlowLookup → Option (Bool × List FlowLookup)
tick_flow_valid flow_id flows = do
  lookup ← get_elem? flows flow_id
  some (lookup.flow_drive_valid, set flows flow_id (record lookup { flow_drive_valid = false }))
