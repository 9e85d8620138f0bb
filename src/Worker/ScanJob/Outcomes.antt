-- ===== src/Worker/ScanJob/Outcomes.antt =====
-- The ways in which a scan ends.
use kumomiru.Prelude.{String, ◌≡◌, ◌⊎◌, inl, inr, Bool, true, false, Option, none, some, List, ◌==◌}
use kumomiru.Graph.Schema.{Graph, Attributes}
use kumomiru.Graph.Integrity.Laws.{IsIntegral}
use kumomiru.Db.Accounts
use kumomiru.Db.Accounts.{AccountRow, AccountStatus}
use kumomiru.Db.Scans
use kumomiru.Db.Scans.{ScanRow, ScanStatus, ScanResult, FinalStatus}
use kumomiru.Db.Snapshots
use kumomiru.Db.Snapshots.{SnapshotRow}
use kumomiru.Db.Results
use kumomiru.Worker.ScanJob.{
  Database, Answers, Setting, Write, finish_write, failure, conclusion, merged, passes, assess,
  assessed, reconciled, is_verify, regions_of,
}

-- A scan with this status is over.
abbrev pub is_over : ScanStatus → Bool
is_over ScanStatus.queued = false
is_over ScanStatus.running = false
is_over _ = true

-- A write after that of the snapshot.
abbrev pub is_later : Write → Bool
is_later Write.regions_write = false
is_later Write.snapshot_write = false
is_later _ = true

module _ (c : Setting) (w : Answers) (scan : ScanRow) (account : AccountRow) (db : Database) where
  -- The regions of the scan, of which the global pass succeeded.
  pub record Discovered : Type 0 where
    pub regions : List String
    pub global : Graph
    pub known : regions_of c w account ≡ inl regions
    pub passed : w.global ≡ inl global

  -- The merged graph of the passes.
  abbrev pub graph_of : Discovered → Graph
  graph_of d = merged c account db.accounts d.regions (passes w d.global d.regions)

  abbrev pub with_regions : Discovered → List ScanRow
  with_regions d = Scans.set_regions scan.id d.regions db.scans

  abbrev pub with_graph : Discovered → List SnapshotRow
  with_graph d =
      (Snapshots.insert c.snapshot_id c.store_now scan.id account.id (assessed c (graph_of d))
        db.snapshots).1

  abbrev pub results_of : Discovered → Option (List (String × Results.RuleResult))
  results_of d =
      Results.replace_for_snapshot c.snapshot_id (assess c (graph_of d)).results db.rule_results

  -- Why a scan fails before its snapshot is stored.
  pub data Reason (error : String) : Type 0 where
    no_role : w.assumed ≡ inr error → Reason error
    no_regions : regions_of c w account ≡ inr error → Reason error
    no_global : w.global ≡ inr error → Reason error
    no_identity : w.account_id ≡ inr error → Reason error
    other_account :
        (seen : String) → w.account_id ≡ inl seen → seen == account.id ≡ false → Reason error
    broken_graph : (d : Discovered) → ¬ IsIntegral (graph_of d) → Reason error
    refused : (x : Write) → w.store x ≡ some error → Reason error

  -- The row of the scan is over with a failure, for a reason, and of the other tables none has changed.
  pub record Failed (db' : Database) : Type 0 where
    pub error : String
    pub reason : Reason error
    pub before : List ScanRow
    pub regions :
        (before ≡ db.scans)
        ⊎ ((rs : List String) × (before ≡ Scans.set_regions scan.id rs db.scans))
    pub after : db' ≡ record db { scans = Scans.finish c.store_now scan.id (failure error) before }

  -- A write after that of the snapshot threw, or two rule results have one key.
  abbrev pub Interrupts : Discovered → String → Type 0
  Interrupts d error =
      ((x : Write) × (w.store x ≡ some error) × (is_later x ≡ true))
      ⊎ ((error ≡ w.conflict) × (results_of d ≡ none))

  -- The snapshot of a merged graph without problems was stored, and then the scan failed.
  pub record CutShort (db' : Database) : Type 0 where
    pub found : Discovered
    pub integral : IsIntegral (graph_of found)
    pub error : String
    pub cause : Interrupts found error
    pub before : List ScanRow
    pub marked :
        (before ≡ with_regions found)
        ⊎ ((result : ScanResult) × (before
              ≡ Scans.finish c.store_now scan.id result (with_regions found)))
    pub scans : db'.scans ≡ Scans.finish c.store_now scan.id (failure error) before
    pub snapshots : db'.snapshots ≡ with_graph found
    pub accounts : db'.accounts ≡ db.accounts
    pub suppressions : db'.suppressions ≡ db.suppressions

  -- A merged graph without problems was stored with the findings of the rules, their results and the
  -- reconciled findings, and the scan is over: as ok, or as partial where a region failed.
  pub record Stored (db' : Database) : Type 0 where
    pub found : Discovered
    pub integral : IsIntegral (graph_of found)
    pub stats : Attributes
    pub scans :
        db'.scans
        ≡ Scans.finish c.store_now scan.id
            (conclusion c (passes w found.global found.regions).failed stats)
            (with_regions found)
    pub snapshots : db'.snapshots ≡ with_graph found
    pub rule_results : results_of found ≡ some db'.rule_results
    pub findings :
        db'.findings
        ≡ (reconciled c account (assessed c (graph_of found)) (assess c (graph_of found)) db).table
    pub suppressions : db'.suppressions ≡ db.suppressions

  abbrev pub activated : List AccountRow
  activated = Accounts.set_status c.store_now account.id AccountStatus.active db.accounts

  -- The scan is a verification, and its role lands in the account.
  pub record IsVerified : Type 0 where
    pub trigger : is_verify c scan.trigger ≡ true
    pub landed : w.account_id ≡ inl account.id

  pub record Verified (db' : Database) : Type 0 where
    pub valid : IsVerified
    pub stats : Attributes
    pub after : db' ≡ record db {
      accounts = activated;
      scans =
          Scans.finish c.store_now scan.id
            (record { status = FinalStatus.ok; error = none; stats = some stats })
            db.scans;
    }

  -- The account was marked as active, and then the write of the scan threw.
  pub record Unmarked (db' : Database) : Type 0 where
    pub valid : IsVerified
    pub error : String
    pub refused_finish : w.store finish_write ≡ some error
    pub after : db' ≡ record db {
      accounts = activated;
      scans = Scans.finish c.store_now scan.id (failure error) db.scans;
    }

  pub data Outcome (db' : Database) : Type 0 where
    failed : Failed db' → Outcome db'
    cut_short : CutShort db' → Outcome db'
    stored : Stored db' → Outcome db'
    verified : Verified db' → Outcome db'
    unmarked : Unmarked db' → Outcome db'
