-- ===== src/ClientStore/People.antt =====
-- apps/web/lib/stores/room-store.ts: the reducers on the participants, and what the hooks read of
-- them: who is waited for, and who edits a block.
use syncstudies.Base.{Bool, not, List, [], ◌∷◌, ◌++◌, Option, none, some, if◌then◌else◌, keep}
use syncstudies.Base.Searching.{replace_first, find}
use syncstudies.Base.Text.{String, str_eq}
use syncstudies.Base.Int.{ℤ, ltb_ℤ}
use syncstudies.Permissions.{Role}
use syncstudies.ClientStore.Data.{RoomData, Participant, ConnState, WaitingForSlow, BlockLock}
use syncstudies.ClientStore.Merge.{JsText}
use syncstudies.ClientStore.Lists.{sort_participants}
use syncstudies.ClientStore.Snapshot.{given}

abbrev pub is_participant : String → Participant → Bool
is_participant id p = str_eq p.user.id id

unfoldable pub participant_joined : JsText → RoomData → Participant → RoomData
participant_joined js st p = record st {
  participants =
      sort_participants js (keep (λ q. not (is_participant p.user.id q)) st.participants ++ p ∷ []);
}

unfoldable pub participant_left : RoomData → String → RoomData
participant_left st id = record st {
  participants = keep (λ q. not (is_participant id q)) st.participants;
}

-- `Partial<Participant>`
pub record ParticipantPatch : Type 0 where
  pub id : Option String
  pub handle : Option String
  pub display_name : Option String
  pub avatar_url : Option (Option String)
  pub role : Option Role
  pub conn_state : Option ConnState
  pub joined_at : Option ℤ
  pub in_call : Option Bool
  pub muted : Option Bool
  pub cam_on : Option Bool
  pub sharing : Option Bool
  pub speaking : Option Bool
  pub force_muted : Option Bool
  pub buffering : Option Bool

abbrev pub patch_participant : ParticipantPatch → Participant → Participant
patch_participant patch p = record {
  user = record {
    id = given patch.id p.user.id;
    handle = given patch.handle p.user.handle;
    display_name = given patch.display_name p.user.display_name;
    avatar_url = given patch.avatar_url p.user.avatar_url;
  };
  role = given patch.role p.role;
  conn_state = given patch.conn_state p.conn_state;
  joined_at = given patch.joined_at p.joined_at;
  in_call = given patch.in_call p.in_call;
  muted = given patch.muted p.muted;
  cam_on = given patch.cam_on p.cam_on;
  sharing = given patch.sharing p.sharing;
  speaking = given patch.speaking p.speaking;
  force_muted = given patch.force_muted p.force_muted;
  buffering = given patch.buffering p.buffering;
}

-- A patch that changes nothing writes what is there.
unfoldable pub participant_patched : RoomData → String → ParticipantPatch → RoomData
participant_patched st id patch = record st {
  participants = replace_first (is_participant id) (patch_participant patch) st.participants;
}

abbrev pub name_of : List Participant → String → Option String
name_of people id = elim (find (is_participant id) people) [
  | none ↦ none
  | some p ↦ some p.user.display_name
]

abbrev pub cons_name : Option String → List String → List String
cons_name none names = names
cons_name (some name) names = name ∷ names

abbrev pub names_of : List Participant → List String → List String
names_of people [] = []
names_of people (id ∷ ids) = cons_name (name_of people id) (names_of people ids)

abbrev pub waiting_names : List Participant → Option WaitingForSlow → List String
waiting_names people none = []
waiting_names people (some w) = names_of people w.user_ids

unfoldable pub use_waiting_for_names : RoomData → List String
use_waiting_for_names st = waiting_names st.participants st.waiting

abbrev pub editor_name : List Participant → Option BlockLock → String → ℤ → Option String
editor_name people none you now = none
editor_name people (some lock) you now =
    if str_eq lock.user_id you
    then none
    else if ltb_ℤ now lock.until_server_ms
    then name_of people lock.user_id
    else none

unfoldable pub use_block_editor : RoomData → String → String → ℤ → Option String
use_block_editor st block you now = editor_name st.participants (st.block_locks block) you now
