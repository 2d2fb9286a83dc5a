-- ===== src/Noti/Slack.antt =====
-- noti/slack.go: the client that sends notifications to a channel of Slack.
use canary_gate.Prelude.{
  String, ◌++◌, Bool, Option, none, some, List, [], ◌∷◌, ◌⊎◌, inl, inr, ◌==◌, if◌then◌else◌,
}
use canary_gate.Runtime.Dict.{Dict, lookup}
use canary_gate.Service.{HookType, meta_name, meta_namespace, meta_cluster}
use canary_gate.Noti.{NotiClient, Sent, sent, failed, quiet_noti, slack_header}

pub record SlackOption : Type 0 where
  pub token : String
  pub channel : String
  pub debug : Bool

pub data Style : Type 0 where
  primary danger : Style

pub record Button : Type 0 where
  pub action_id : String
  pub value : String
  pub text : String
  pub style : Style

-- The blocks of a message: a section has a text, and fields in Markdown.
pub data Block : Type 0 where
  header_block : String → Block
  section_block : String → List String → Block
  action_block : List Button → Block

pub record Upload : Type 0 where
  pub title : String
  pub content : String
  pub channel : String
  pub thread_timestamp : String

-- The library of Slack, with clients `C` over the state `N` that they reach: an error is its text, and
-- the answer to a message is the identifier of its channel and its time stamp. `sorted` is
-- `slices.Sorted`.
pub record SlackApi (C N : Type 0) : Type 0 where
  pub new : String → Bool → C
  pub send_message : C → String → List Block → N → (String ⊎ (String × String)) × N
  pub upload_file : C → Upload → N → Option String × N
  pub sorted : List String → List String

-- `m[k]` of a map of texts: the zero value where the key is missing.
abbrev at_key : Dict String → String → String
at_key meta k = elim (lookup meta k) [ none ↦ "" | some v ↦ v ]

abbrev pub keys : Dict String → List String
keys [] = []
keys ((k, v) ∷ rest) = k ∷ keys rest

abbrev pub field : Dict String → String → String
field meta k = "*" ++ (k ++ ("*\n" ++ at_key meta k))

abbrev pub fields : Dict String → List String → List String
fields meta [] = []
fields meta (k ∷ more) = field meta k ∷ fields meta more

-- What the buttons of a message are about.
abbrev pub action : Dict String → String
action meta =
    at_key meta meta_cluster
    ++ (":" ++ (at_key meta meta_namespace ++ (":" ++ at_key meta meta_name)))

module _ {C N : Type 0} (api : SlackApi C N) where
  unfoldable pub message_blocks : String → String → Dict String → List Block
  message_blocks text header meta =
      header_block header
      ∷ section_block text (fields meta (api.sorted (keys meta)))
      ∷ action_block (
          record {
            action_id = "approve";
            value = "approve:" ++ action meta;
            text = "Approve";
            style = primary;
          }
          ∷ record {
            action_id = "halt";
            value = "halt:" ++ action meta;
            text = "Halt";
            style = danger;
          }
          ∷ [])
      ∷ []

  -- The messages of `SendMessages`: the time stamp under the identifier of the channel.
  abbrev pub sent_to : String → (String ⊎ (String × String)) × N → Sent × N
  sent_to channel (inl err, n) =
      (failed ("error sending message to " ++ (channel ++ (": " ++ err))), n)
  sent_to channel (inr (channel_id, ts), n) = (sent ((channel_id, ts) ∷ []), n)

  unfoldable pub send_messages : C → String → String → HookType → Dict String → N → Sent × N
  unfolding message_blocks
  send_messages client channel text hook meta n =
      sent_to channel
        (api.send_message client channel (message_blocks text (slack_header hook) meta) n)

  abbrev pub upload_to : C → String → String → String → String → N → Option String × N
  upload_to client name content channel_id ts n =
      api.upload_file client
        (record { title = name; content = content; channel = channel_id; thread_timestamp = ts }) n

  -- The loop of `AddFileToThreads`, which ends at the first error.
  unfoldable pub add_file_to_threads : C → String → String → Dict String → N → Option String × N
  add_file_to_threads client name content [] n = (none, n)
  add_file_to_threads client name content ((channel_id, ts) ∷ rest) n =
      let (result, n') = upload_to client name content channel_id ts n in
      elim result [
        | none ↦ add_file_to_threads client name content rest n'
        | some err ↦ (
          some (
              "error while uploading output to "
              ++ (ts ++ (" in slack channel " ++ (channel_id ++ (": " ++ err))))),
          n',
        )
      ]

  abbrev pub slack_client : C → String → NotiClient N
  slack_client client channel = record {
    send_messages = send_messages client channel;
    update_messages = λ messages text context n. (none, n);
    add_file_to_threads =
        λ messages name content n. add_file_to_threads client name content messages n;
  }

  unfoldable pub new_slack_client : SlackOption → NotiClient N
  new_slack_client option =
      if option.token == ""
      then quiet_noti
      else slack_client (api.new option.token option.debug) option.channel
