-- ===== src/Store/Memory/Histories.antt =====
-- Any history of calls on a new in-memory store.
use canary_gate.Prelude.{refl, ap₂, List}
use canary_gate.Runtime.Dict.{lookup}
use canary_gate.Store.Contract.{Ends}
use canary_gate.Store.Book.{default_book, answers, canary_eq-true}
use canary_gate.Store.Refinement.{
  Call, AllFit, Separates, Sees, accesses, run_calls, run_calls-answers,
}
use canary_gate.Store.Memory.{get_event_key, memory_store, new_memory_store}
use canary_gate.Store.Memory.Naming.{IsGate, HasPlainNames}
use canary_gate.Store.Memory.Gates.{IsValid, event_of, view, memory_store-IsGateStore}

pub new_memory_store-IsValid : IsValid new_memory_store
unfolding lookup
new_memory_store-IsValid = record { holds = λ k g. tt; events = λ k g. tt }

pub view-Separates : Separates view
unfolding get_event_key
view-Separates = record {
  apart = λ k j g g' ne. ne;
  aside = λ k j e. e;
  shared = λ d k j e.
      let (ns, name) = canary_eq-true k j e in
      ap₂ (λ ns n. event_of d (record k { namespace = ns; name = n })) ns name;
}

pub new_memory_store-Sees :
    Sees memory_store view memory_store-IsGateStore view-Separates new_memory_store default_book
unfolding lookup
new_memory_store-Sees = record { gates = λ j g. refl; events = λ j n. refl }

-- A new in-memory store answers any calls on gates and canaries as a map of gates and a map of events
-- do, in which each gate starts with the default of its type and each event empty.
pub memory_store-answers :
    (calls : List Call)
    → AllFit IsGate HasPlainNames calls
    → Ends
        (run_calls memory_store calls)
        new_memory_store
        (answers default_book (accesses calls))
        IsValid
memory_store-answers calls all =
    run_calls-answers memory_store view memory_store-IsGateStore view-Separates calls
      new_memory_store default_book new_memory_store-IsValid new_memory_store-Sees all
