-- ===== src/Cpu/Scope.antt =====
-- The scopes of the simulator in sim_dpi/sim_cpu.cpp: the control CPU announces flows in the scope
-- in which it was initialized, whatever scope calls it.
use tcp_hw.Base.{ℕ, ◌<◌, ◌≡◌, refl, Option, some, List, length, set, lt→ltb, ◌>>=◌}
use tcp_hw.Cpu.{FlowLookup, Endpoints, FlowWrite, lookup_of, write_of, set_new_flow}

-- The functions of svdpi.h: `svGetNameFromScope` and `svGetScopeFromName`. `svSetScope` sets the
-- scope, and `svGetScope` is the scope that is set.
pub record Scopes : Type 1 where
  pub Scope : Type 0
  pub Name : Type 0
  pub name_from_scope : Scope → Name
  pub scope_from_name : Name → Scope

module _ (sv : Scopes) where
  open sv use {Scope, Name, name_from_scope, scope_from_name}

  -- The globals of the file and the scope.
  pub record CpuState : Type 0 where
    pub scope : Scope
    pub local_sim_scope : Name
    pub flows : List FlowLookup

  unfoldable pub local_init : CpuState → CpuState
  local_init cpu = record cpu { local_sim_scope = name_from_scope cpu.scope }

  -- The scope in which `write_flowid_lookup` is called, the call, and the state.
  unfoldable pub announce_flow :
      ℕ → ℕ → Endpoints → CpuState → Option (Scope × FlowWrite × CpuState)
  announce_flow stale flow_id state cpu =
      let orig_scope = name_from_scope cpu.scope in
      let entered : CpuState = record cpu { scope = scope_from_name cpu.local_sim_scope } in
      (do
        (written, flows) ← set_new_flow stale flow_id state entered.flows
        some (
          entered.scope,
          written,
          record entered { scope = scope_from_name orig_scope; flows = flows },
        ))

  -- Let the name of a scope lead back to it. After `local_init`, a call of `set_new_flow` for a
  -- flow of the table, from any scope, announces the flow in the scope in which `local_init` was
  -- called, enters it in the table, and leaves the scope of its caller as it was.
  pub local_init-announce_flow :
      (stale flow_id : ℕ) (state : Endpoints) (cpu : CpuState) (caller : Scope)
      → ((s : Scope) → scope_from_name (name_from_scope s) ≡ s)
      → flow_id < length cpu.flows
      → announce_flow stale flow_id state (record (local_init cpu) { scope = caller })
        ≡ some (
          cpu.scope,
          write_of stale flow_id state,
          record (local_init cpu) {
            scope = caller;
            flows = set cpu.flows flow_id (lookup_of flow_id state);
          },
        )
  unfolding announce_flow set_new_flow local_init
  local_init-announce_flow stale flow_id state cpu caller back h =
      rw (lt→ltb flow_id (length cpu.flows) h, back caller, back cpu.scope) refl
