-- ===== src/Compiler/Merge.antt =====
-- CompilePageCacheEvents of src/compiler/compiler.cc: the two passes over ordered sets.
use android_system_iorap.Prelude.{
  ℕ, ltb, Bool, List, [], ◌∷◌, Option, none, some, if◌then◌else◌, Text, map, Key, nat_key, text_key,
}
use android_system_iorap.Prelude.Order.{
  Order, nat_order, text_order, bool_order, bool_key, pair_key, pair_order,
}
use android_system_iorap.Prelude.OrderedSet.{set_insert, set_find, set_erase, set_merge}
use android_system_iorap.Compiler.Resolve.{ResolvedPageCacheFtraceEvent}

pub record CompilerPageCacheEvent : Type 0 where
  pub filename : Text
  pub timestamp_relative : ℕ
  pub add_to_page_cache : Bool
  pub index : ℕ

-- The constructor
abbrev pub of_resolved : ResolvedPageCacheFtraceEvent → CompilerPageCacheEvent
of_resolved r = record {
  filename = r.filename;
  timestamp_relative = r.event.timestamp_relative;
  add_to_page_cache = r.event.add_to_page_cache;
  index = r.event.index;
}

-- What LessIgnoringTimestamp compares, in order; multiless is the order of tuples.
abbrev pub ignoring_timestamp : CompilerPageCacheEvent → Text × (Bool × ℕ)
ignoring_timestamp e = (e.filename, (e.add_to_page_cache, e.index))

-- What operator< compares.
abbrev pub with_timestamp : CompilerPageCacheEvent → ℕ × (Text × (Bool × ℕ))
with_timestamp e = (e.timestamp_relative, ignoring_timestamp e)

-- The first pass, for elements that have a key and a time.
module _ {ε κ} {E : Type ε} {K : Type κ} ⦃k : Key K⦄ ⦃o : Order K⦄ (key : E → K)
    (time : E → ℕ) where
  abbrev pub add_found : Option E → List E → E → List E
  add_found none set event = set_insert key event set
  add_found (some it) set event =
      if ltb (time event) (time it)
      then set_insert key event (set_erase key (key event) set)
      else set

  unfoldable pub add_event : List E → E → List E
  add_event set event = add_found (set_find key (key event) set) set event

  unfoldable pub add_events : List E → List E → List E
  add_events set [] = set
  add_events set (e ∷ events) = add_events (add_event set e) events

-- CompilePageCacheEvents
unfoldable pub compile_page_cache_events :
    List ResolvedPageCacheFtraceEvent → List CompilerPageCacheEvent
compile_page_cache_events resolved_events =
    set_merge with_timestamp
      (add_events ignoring_timestamp (λ e. e.timestamp_relative) []
        (map of_resolved resolved_events))
      []
