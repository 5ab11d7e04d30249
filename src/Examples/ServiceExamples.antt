-- ===== src/Examples/ServiceExamples.antt =====
-- Witnesses for the theorems on conversations and projects.
use harness_forge.Base.{ℕ, String, ◌≡◌, ◌⊎◌, refl, false, some, [], ◌∷◌}
use harness_forge.Base.Keys.{All}
use harness_forge.Base.Tables.{find, update, exists}
use harness_forge.Base.Text.{trim_space, is_space}
use harness_forge.Schema.{
  Run, Conversation, InputFile, Database, conflict, invalid, ok, err, Message, find_conversation,
}
use harness_forge.RunStore.{create_queued_tx}
use harness_forge.Projects.{delete_project, lock_project, protects, save_input}
use harness_forge.Projects.Deletion.{delete_project_closes, IsRefused}
use harness_forge.Conversations.{create_conversation, lock_conversation, delete_tx, submit_message}
use harness_forge.Conversations.Deletion.{Closed, delete_tx_closes}
use harness_forge.Conversations.Submission.{Submitted, submit_message_queues}
use harness_forge.Lifecycle.Steps.Invariant.{IsWellFormed}
use harness_forge.Examples.Data.{seeded, project, conversation, waiting, message}
use harness_forge.Examples.RunExamples.{seeded-IsWellFormed}

abbrev second_message : Message
second_message = record message { id = 4; content = "and the lakes"; created_at = 20 }

abbrev second_run : Run
second_run = record waiting { trigger_message_id = 4 }

abbrev talking : Database
talking = record seeded {
  conversations = record conversation { updated_at = 20 } ∷ [];
  messages = message ∷ second_message ∷ [];
  runs = second_run ∷ [];
}

submit_step :
    submit_message 2 4 7 "  and the lakes " 20 seeded ≡ ok (second_message, second_run, talking)
unfolding submit_message trim_space is_space find lock_project create_queued_tx update exists
submit_step = refl

submit_message_queues_example :
    Submitted 2 4 7 (trim_space "  and the lakes ") 20 seeded talking × IsWellFormed talking
submit_message_queues_example =
    submit_message_queues 2 4 7 "  and the lakes " 20 seeded talking second_message second_run
      submit_step seeded-IsWellFormed

abbrev closed_conversation : Database
closed_conversation = record seeded {
  conversations = record conversation { deleted_at = some 70; updated_at = 70 } ∷ [];
}

delete_step : delete_tx 2 70 seeded ≡ ok closed_conversation
unfolding delete_tx lock_conversation find lock_project exists update
delete_step = refl

delete_tx_closes_example :
    Closed 2 seeded closed_conversation
    × ((submit_message 2 5 8 "hello" 80 closed_conversation ≡ err conflict)
        ⊎ (submit_message 2 5 8 "hello" 80 closed_conversation ≡ err invalid))
delete_tx_closes_example =
    delete_tx_closes 2 70 seeded closed_conversation 5 8 "hello" 80 delete_step

abbrev closed_project : Database
closed_project = record seeded {
  projects = record project { deleted_at = some 70; updated_at = 70 } ∷ [];
}

delete_project_step : delete_project 1 70 seeded ≡ ok closed_project
unfolding delete_project find exists update
delete_project_step = refl

delete_project_closes_example :
    ((closed_project ≡ seeded) ⊎ All (λ (r : Run). protects 1 seeded r ≡ false) seeded.runs)
    × ((c : ℕ) (title : String) (later : ℕ)
        → IsRefused (create_conversation c 1 title later closed_project))
    × ((input : InputFile) (later : ℕ)
        → input.project_id ≡ 1
        → IsRefused (save_input input later closed_project))
    × ((c : Conversation) (m r : ℕ) (content : String) (later : ℕ)
        → find_conversation c.id closed_project ≡ some c
        → c.project_id ≡ 1
        → IsRefused (submit_message c.id m r content later closed_project)
          ⊎ (submit_message c.id m r content later closed_project ≡ err invalid))
delete_project_closes_example = delete_project_closes 1 70 seeded closed_project delete_project_step
