-- ===== src/Examples/CleanupExamples.antt =====
-- Witnesses for the theorems on the hard delete.
use harness_forge.Base.{◌≡◌, ◌&&◌, refl, false, some, [], ◌∷◌}
use harness_forge.Base.Keys.{All}
use harness_forge.Base.Tables.{find, exists, where_rows, update_where}
use harness_forge.Schema.{Run, Conversation, Message, Database, ok}
use harness_forge.Projects.{is_unsettled}
use harness_forge.Cleanup.{
  conversation_root, owns, is_in, hard_delete, lock_root, clear_runs, delete_products, delete_runs,
  delete_messages, delete_conversations, delete_root,
}
use harness_forge.Cleanup.Removal.{hard_delete_removes}
use harness_forge.Examples.Data.{seeded, conversation, failed_run, report}

-- the conversation is deleted, and its run ended with a product
abbrev expired : Database
expired = record seeded {
  conversations = record conversation { deleted_at = some 70 } ∷ [];
  runs = record failed_run { finalized_at = some 50 } ∷ [];
  artifacts = report ∷ [];
}

abbrev purged : Database
purged = record seeded { conversations = []; messages = [] }

purge_step : hard_delete (conversation_root 2) expired ≡ ok purged
unfolding hard_delete lock_root clear_runs delete_products delete_runs delete_messages
    delete_conversations delete_root find exists where_rows update_where
purge_step = refl

hard_delete_removes_example :
    All
      (λ (r : Run).
        (owns (conversation_root 2) expired.conversations r.conversation_id && is_unsettled r)
        ≡ false)
      expired.runs
    × All
        (λ (r : Run). owns (conversation_root 2) expired.conversations r.conversation_id ≡ false)
        purged.runs
    × All
        (λ (m : Message).
          owns (conversation_root 2) expired.conversations m.conversation_id ≡ false)
        purged.messages
    × All (λ (c : Conversation). is_in (conversation_root 2) c ≡ false) purged.conversations
hard_delete_removes_example = hard_delete_removes (conversation_root 2) expired purged purge_step
