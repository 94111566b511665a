-- ===== src/Examples/UserChannel.antt =====
-- A request to the Room server that is admitted, runs and is answered.
use rsp.Base.{◌≤◌, ◌≡◌, ◌++◌, refl, true, false, some, List, [], ◌∷◌, ℕ}
use rsp.Base.Map.{find}
use rsp.QueuedRequests.{admit, prune, prune_loop, init}
use rsp.Broker.Channels.{new_channel}
use rsp.UserChannel.{
  UserChannel, new_user_channel, cancel_request, handle_request, is_active, complete,
}
use rsp.UserChannel.Responses.{
  Event, receives, handles, asks, completes, cancels, responses, go_aheads,
  responses-new_user_channel,
}
use rsp.UserChannel.Outcomes.{complete-handle_request}

-- Messages are numbers, and the User server's route is 7.
abbrev events : List (Event ℕ)
events =
    receives (7 ∷ [])
    ∷ handles false 1 0
    ∷ asks 0
    ∷ cancels 1 2
    ∷ completes (7 ∷ [], 1) 0 9 3
    ∷ completes (7 ∷ [], 1) 0 9 4
    ∷ []

responses-new_user_channel_example :
    (responses 0 events new_user_channel ≤ 1)
    × (responses 0 events new_user_channel ≤ go_aheads 0 events new_user_channel)
responses-new_user_channel_example = responses-new_user_channel 0 events

abbrev channel : UserChannel ℕ
channel = record { channel = new_channel; current_route = 7 ∷ []; requests = init 4096 30 }

admits : (handle_request false 1 0 channel).0 ≡ some 0
unfolding handle_request admit prune prune_loop find init
admits = refl

complete-handle_request_example :
    let admitted = (handle_request false 1 0 channel).1 in
    let asked = is_active 0 admitted in
    let late = is_active 0 (cancel_request 1 2 admitted) in
    (asked.0 ≡ true)
    × ((complete (channel.current_route, 1) 0 9 3 asked.1).channel.outgoing
        ≡ channel.channel.outgoing ++ (channel.current_route, 9) ∷ [])
    × (late.0 ≡ false)
    × ((complete (channel.current_route, 1) 0 9 3 late.1).channel.outgoing
        ≡ channel.channel.outgoing)
complete-handle_request_example = complete-handle_request 1 0 2 3 0 9 channel admits
