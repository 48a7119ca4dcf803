-- ===== src/Core/Repository/Order.antt =====
-- packages/dist-core/src/dist_core/repository.py, "Publication order": what a client can be served at
-- each moment. `Log` is about the files written, `Steps` about one edit, `Publish` about the operations.
pub mod Log
pub mod Steps
pub mod Publish
pub mod Runs
pub mod Acts
use dev_tools_distribution_p.Base.{ℕ, List, [], ◌∷◌, Option, some, ◌≡◌, In}
use dev_tools_distribution_p.Base.Maps.{get_item}
use dev_tools_distribution_p.Base.Text.{Str, text}
use dev_tools_distribution_p.Core.Repository.{Metadata, snapshot_body, timestamp_body, versioned}

abbrev pub Log : Type 0
Log = List (Str × Metadata)

abbrev pub timestamp_file : Str
timestamp_file = text "timestamp.json"

abbrev pub snapshot_file : Str
snapshot_file = text "snapshot.json"

-- The file is there.
abbrev pub Present : Log → Str → Type 0
Present log file = (md : Metadata) × (get_item log file ≡ some md)

-- Every file that a snapshot names is there.
abbrev pub Complete : Log → List (Str × ℕ) → Type 0
Complete log meta = (name : Str) (w : ℕ) → In (name, w) meta → Present log (versioned w name)

-- What a client that reads timestamp.json finds: the snapshot it names, and the files this names.
abbrev pub Served : Log → Type 0
Served log =
    (md : Metadata)
    → get_item log timestamp_file ≡ some md
    → (v : ℕ) × (s : Metadata) × (meta : List (Str × ℕ)) × (md.signed ≡ timestamp_body v)
      × (get_item log (versioned v snapshot_file) ≡ some s)
      × (s.signed ≡ snapshot_body meta)
      × Complete log meta
