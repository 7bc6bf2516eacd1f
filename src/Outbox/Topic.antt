-- ===== src/Outbox/Topic.antt =====
-- The choice of a topic by `OutboxDispatcher` of biz/service/outbox_dispatcher.go. strings.ToLower and
-- strings.EqualFold are parameters. The configuration's map of topics is in the order in which a loop
-- over it runs.
use cex_hertz_backend.Base.{
  String, str_eq, Bool, ◌||◌, Option, none, some, [], ◌∷◌, Dict, lookup, if◌then◌else◌,
}
use cex_hertz_backend.Outbox.Repo.{OutboxRow}

-- The first topic of all, if the one of trades is not named. `none` is no configuration.
unfoldable pub default_topic : Option (Dict String) → String
default_topic none = "trade"
default_topic (some []) = "trade"
default_topic (some ((k, topic) ∷ topics)) = elim (lookup "trade" ((k, topic) ∷ topics)) [
  | some named ↦ named
  | none ↦ topic
]

module _ (lower : String → String) (equal_fold : String → String → Bool) where
  -- The topic of the event's type.
  unfoldable pub topic_by_type : String → Dict String → Option String
  topic_by_type event_type topics =
      if str_eq (lower event_type) "tradeexecuted" || str_eq (lower event_type) "trade_executed"
      then lookup "trade" topics
      else if str_eq (lower event_type) "positionupdated"
          || str_eq (lower event_type) "position_updated"
      then lookup "order" topics
      else none

  unfoldable pub topic_by_aggregate : String → Dict String → Option String
  topic_by_aggregate aggregate [] = none
  topic_by_aggregate aggregate ((key, topic) ∷ topics) =
      if equal_fold key (lower aggregate) || equal_fold (lower key) (lower aggregate)
      then some topic
      else topic_by_aggregate aggregate topics

  unfoldable pub resolve_topic : Option (Dict String) → OutboxRow → String
  resolve_topic none e = default_topic none
  resolve_topic (some topics) e = elim (topic_by_type e.event_type topics) [
    | some topic ↦ topic
    | none ↦
        if str_eq e.aggregate_type ""
        then default_topic (some topics)
        else elim (topic_by_aggregate e.aggregate_type topics) [
          | some topic ↦ topic
          | none ↦ default_topic (some topics)
        ]
  ]
