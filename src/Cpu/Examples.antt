-- ===== src/Cpu/Examples.antt =====
-- A new flow in a table of four.
use tcp_hw.Base.{ℕ, ◌+◌, ◌-◌, set, ◌≡◌, ◌⊎◌, arith, true, false, some, List, replicate, get_elem?}
use tcp_hw.Cpu.{
  FlowLookup, Endpoints, FlowWrite, lookup_of, write_of, set_new_flow, tick_flow_valid,
}
use tcp_hw.Cpu.Scope.{Scopes, CpuState, local_init, announce_flow, local_init-announce_flow}
use tcp_hw.Cpu.Flags.{set-tick}

abbrev table : List FlowLookup
table = replicate 4 (record {
  host_ip = 0;
  dest_ip = 0;
  host_port = 0;
  dest_port = 0;
  flow_num = 0;
  flow_drive_valid = false;
})

abbrev ends : Endpoints
ends = record {
  source_s_addr = 0x0200_00c0;
  source_port = 1234;
  dest_s_addr = 0x0100_00c0;
  dest_port = 80;
  init_ack_num = 8;
}

set-tick_example :
    (written : FlowWrite) × (flows' : List FlowLookup) × (flows'' : List FlowLookup) × (set_new_flow
        0 2 ends table
      ≡ some (written, flows'))
    × (written.new_flowid ≡ 2)
    × (written.init_ack_num ≡ 8)
    × (tick_flow_valid 2 flows' ≡ some (true, flows''))
    × (tick_flow_valid 2 flows'' ≡ some (false, flows''))
    × ((j : ℕ) → (j ≡ 2) ⊎ (get_elem? flows'' j ≡ get_elem? table j))
set-tick_example = set-tick 0 2 ends table (omega arith)

-- Scopes whose names are numbers, each one more than the scope.
abbrev sv : Scopes
sv = record { Scope = ℕ; Name = ℕ; name_from_scope = λ s. s + 1; scope_from_name = λ n. n - 1 }

abbrev cpu : CpuState sv
cpu = record { scope = 5; local_sim_scope = 0; flows = table }

announce_flow_example :
    announce_flow sv 0 2 ends (record (local_init sv cpu) { scope = 7 })
    ≡ some (
      5,
      write_of 0 2 ends,
      record (local_init sv cpu) { scope = 7; flows = set table 2 (lookup_of 2 ends) },
    )
announce_flow_example = local_init-announce_flow sv 0 2 ends cpu 7 (λ s. omega arith) (omega arith)
