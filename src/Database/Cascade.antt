-- ===== src/Database/Cascade.antt =====
-- PackageModel::Delete of src/db/models.h with foreign keys that cascade.
use android_system_iorap.Prelude.{ℕ, ◌==◌, true}
use android_system_iorap.Database.{Database, select_where, has_id}
use android_system_iorap.Database.Queries.{delete_package}
use android_system_iorap.Database.Tables.{
  All-kept, delete_where-IsKeyed, has_id-delete_where, has_id-delete_id,
}
use android_system_iorap.Database.Integrity.{IsConsistent}

-- The deletion of a package with cascading foreign keys leaves no row that refers to a deleted one.
pub delete_package-IsConsistent :
    (id : ℕ) (db : Database) → IsConsistent db → IsConsistent (delete_package true id db)
unfolding delete_package
delete_package-IsConsistent id db c =
    let activities = select_where (λ a. a.package_id == id) db.activities in
    let histories =
      select_where (λ h. has_id (λ a. a.id) h.activity_id activities) db.app_launch_histories in
    record {
      packages_keyed = delete_where-IsKeyed (λ p. p.id) _ db.packages c.packages_keyed;
      activities_keyed = delete_where-IsKeyed (λ a. a.id) _ db.activities c.activities_keyed;
      histories_keyed =
          delete_where-IsKeyed (λ h. h.id) _ db.app_launch_histories c.histories_keyed;
      raw_traces_keyed = delete_where-IsKeyed (λ t. t.id) _ db.raw_traces c.raw_traces_keyed;
      prefetch_files_keyed =
          delete_where-IsKeyed (λ f. f.id) _ db.prefetch_files c.prefetch_files_keyed;
      activities_refer =
          All-kept _ _ _ db.activities
            (λ a n h. has_id-delete_id (λ p. p.id) a.package_id id db.packages h n)
            c.activities_refer;
      histories_refer =
          All-kept _ _ _ db.app_launch_histories
            (λ g n h. has_id-delete_where (λ a. a.id) g.activity_id _ db.activities h n)
            c.histories_refer;
      raw_traces_refer =
          All-kept _ _ _ db.raw_traces
            (λ t n h. has_id-delete_where (λ g. g.id) t.history_id _ db.app_launch_histories h n)
            c.raw_traces_refer;
      prefetch_files_refer =
          All-kept _ _ _ db.prefetch_files
            (λ f n h. has_id-delete_where (λ a. a.id) f.activity_id _ db.activities h n)
            c.prefetch_files_refer;
    }
