-- ===== src/Server/Notify.antt =====
-- recordAndPublish of internal/server/server.go: where a change is announced.
use kbeads.Prelude.{
  String, Bool, List, [], ◌∷◌, ◌++◌, Option, none, some, ◌==◌, if◌then◌else◌, ◌≡◌, refl,
}
use kbeads.Prelude.Text.{append}
use kbeads.Model.Bead.{Bead, Dependency, Comment}
use kbeads.Sse.Hub.{broadcast}
use kbeads.Server.Store.{Answer, Tables, query_record_event}
use kbeads.Server.Actions.{World, Faults, call, run_unless}

-- The events of internal/events that the handlers of beads publish.
pub data Notice : Type 0 where
  bead_created : Bead → Notice
  bead_updated : Bead → List String → Notice
  bead_closed : Bead → String → Notice
  bead_deleted : String → Notice
  advice_created : Bead → Notice
  advice_updated : Bead → List String → Notice
  advice_deleted : String → Notice
  dependency_added : Dependency → Notice
  dependency_removed : String → String → String → Notice
  label_added : String → String → Notice
  label_removed : String → String → Notice
  comment_added : Comment → Notice

-- What the server is connected to: the failures of its store, json.Marshal, and whether a bus
-- with JetStream is set.
pub record Links : Type 0 where
  pub faults : Faults
  pub marshal : Notice → Option String
  pub has_bus : Bool

unfoldable pub topic_to_mutation_type : String → String
topic_to_mutation_type topic =
    if topic == "beads.bead.created"
    then "MutationCreate"
    else if topic == "beads.bead.updated"
    then "MutationUpdate"
    else if topic == "beads.bead.closed"
    then "MutationStatus"
    else if topic == "beads.bead.deleted"
    then "MutationDelete"
    else if topic == "beads.comment.added"
    then "MutationComment"
    else ""

abbrev mutation_messages : Bool → String → String → List (String × String)
mutation_messages has_bus topic payload =
    if has_bus
    then (if topic_to_mutation_type topic == ""
        then []
        else (append "mutations." (topic_to_mutation_type topic), payload) ∷ [])
    else []

-- The result of the insert is only logged, as is the result of the publisher.
abbrev announce : Bool → String → String → Answer Unit × World → World
announce has_bus topic payload (a, w) = record w {
  published = w.published ++ (topic, payload) ∷ [];
  hub = broadcast topic payload w.hub;
  stream = w.stream ++ mutation_messages has_bus topic payload;
}

abbrev insert_event : String → String → String → String → Tables → Answer Unit × Tables
insert_event topic bead_id actor payload =
    query_record_event record { topic = topic; bead_id = bead_id; actor = actor; payload = payload }

abbrev announce_all : Links → String → String → String → Option String → World → World
announce_all links topic bead_id actor none w = w
announce_all links topic bead_id actor (some payload) w =
    announce links.has_bus topic payload
      (call links.faults (insert_event topic bead_id actor payload) w)

unfoldable pub record_and_publish : Links → String → String → String → Notice → World → World
unfolding topic_to_mutation_type
record_and_publish links topic bead_id actor event w =
    announce_all links topic bead_id actor (links.marshal event) w

-- The tables but for the log of events.
abbrev pub data_of : Tables → Tables
data_of t = record t { events = [] }

announce-data :
    (has_bus : Bool) (topic payload : String) (r : Answer Unit × World)
    → (announce has_bus topic payload r).tables ≡ r.1.tables
announce-data has_bus topic payload (a, w) = refl

run_unless-data :
    (o : Option String) (topic bead_id actor payload : String) (w : World)
    → data_of (run_unless o (insert_event topic bead_id actor payload) w).1.tables
      ≡ data_of w.tables
unfolding query_record_event
run_unless-data none topic bead_id actor payload w = refl
run_unless-data (some why) topic bead_id actor payload w = refl

announce_all-data :
    (links : Links) (topic bead_id actor : String) (o : Option String) (w : World)
    → data_of (announce_all links topic bead_id actor o w).tables ≡ data_of w.tables
unfolding call
announce_all-data links topic bead_id actor none w = refl
announce_all-data links topic bead_id actor (some payload) w =
    rw
      (announce-data links.has_bus topic payload
        (call links.faults (insert_event topic bead_id actor payload) w))
      (run_unless-data (links.faults w.calls) topic bead_id actor payload w)

-- An announcement changes the tables only in the log of events.
pub record_and_publish-data :
    (links : Links) (topic bead_id actor : String) (event : Notice) (w : World)
    → data_of (record_and_publish links topic bead_id actor event w).tables ≡ data_of w.tables
unfolding record_and_publish
record_and_publish-data links topic bead_id actor event w =
    announce_all-data links topic bead_id actor (links.marshal event) w
