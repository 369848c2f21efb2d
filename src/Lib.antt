-- ===== src/Lib.antt =====
-- The De'Longhi Coffee Link integration, custom_components/delonghi_coffeelink: a Home Assistant
-- integration that commands coffee machines through the Ayla cloud. A coordinator polls the
-- properties of a machine, reads the catalogue and the monitor out of their binary values, learns
-- the frames of the official app, and writes command frames of its own. On the ECAM models the
-- frames are executed only within a cloud session, which the coordinator connects.
--
-- The parts and the files (sources below custom_components/delonghi_coffeelink):
--   Prelude, Bits, Bytes, Base64, Hex: what the program uses of Python: lists and slices, integers,
--     dictionaries, exceptions as `Result`, texts as lists of code points, `int.to_bytes`,
--     `base64` (with and without `validate`), `bytes.hex` and `int(s, 16)`.
--   Const: const.py, the constants of the protocol and the times; Const.Tables the tables of the
--     entities.
--   Crc: crc16_aug_ccitt of command_builder.py.
--   Command: command_builder.py. The builders stand in Command; Command.Inspect has decode_command
--     (decode_header, decode_beverage, decode_power, decode_profile and decode_response are its
--     branches), parse_profile_response, replay_with_timestamp and the validators; Command.Signature
--     the device signatures; Command.Learn learnable_beverage_id, builder_structural_b64 and the
--     storage of learned frames; Command.Dump recipe_dump_lines. normalize_signed_app_id is of
--     ayla_client.py.
--   Monitor: monitor.py, all of it.
--   Catalog: catalog.py: the blobs and the grammars in Catalog, build_catalog in Catalog.Build
--     (fold_blob is one turn of its loop), the views of the result in Catalog.Views.
--   Session: coordinator.py, the cloud session: update_session_from_props, refresh_device_app_id,
--     with_cloud_session, cold_connect_then and wait_for_session_confirmed over a record of the
--     coordinator's fields. The answers of the cloud and of the clock are arguments (`Cloud`).
--     Session.AppId reads the holder of the session from the properties or the cloud, and
--     Session.Tasks has the background tasks of cold connects, with async_shutdown, as steps;
--     Session.Accounts says what becomes of the commands.
--   Poll: coordinator.py: update_data is _async_update_data, refresh_monitor_session the keepalive,
--     ensure_machine_reachable the test before a command; Poll.Fetch has detect_property,
--     update_monitor and update_catalog, over the properties of one poll.
--   Client: ayla_client.py: request_json is the loop of _request_json over the replies of a server,
--     session_payload what async_post_cloud_session writes, read_device and get_properties what is
--     read out of the answers.
--   Targets: __init__.py: the machines that are set up and the devices that a call names; in
--     Targets.Machines resolve_targets is _resolve_targets over the registries of Home Assistant, and
--     send_to_each the fan-out of coordinator.py.
--   Profile: model_profiles.py: the profiles as a data type, profile_for, and the value of a command
--     on each.
--   Sniffer: coordinator.py: maybe_learn_frame is what is learned of a frame, record_sent the queue of
--     the values that were sent; in Sniffer.Capture sniff_app_traffic is one poll of both channels,
--     and in Sniffer.Load load_learned the restart. It holds the Session, since a learned frame sets
--     the app id.
--   Send: coordinator.py: in Send.Commands send_beverage, send_wake, send_standby, send_profile and
--     send_raw, which go through the reachability test, the Session and the Profile, and note in the
--     Sniffer what they write; run_scheduled is the background task of a command that waits for a
--     cold connect.
--   Coordinator: coordinator.py: fetch_once is _fetch_once over the parts above, in their order.
--   Counters: counters.py, over JSON values.
--   Entities: Entities.Sensors and Entities.Status are sensor.py, the sensors of a machine and what
--     they show; Entities.Alarms is binary_sensor.py; Entities.Buttons is button.py, whose presses
--     are commands of Send, and Entities.Press what they write.
--   Setup: __init__.py: publish, finish_setup, fail_setup, unload_entry and remove_entry are the
--     parts of async_setup_entry, async_unload_entry and async_remove_entry between two awaits,
--     register_services is _register_services; Setup.Steps has the steps of Home Assistant.
--   Tests, Tests.Commands, Tests.Services, Tests.Entities: the theorems at concrete inputs.
--
-- Loops are structural recursion on what they read: on the bytes of a payload, the characters of a
-- text, the blobs, the slots that are left, or the answers that come before the time runs out. The
-- fuel is that of `decimal` and `hex2`, which is no less than the number that they print and so no
-- less than its digits, and the attempts of request_json, which are those of the source. Times are
-- whole seconds, the pauses of a request milliseconds. The current time of a builder is its argument
-- `now`.
--
-- Not modelled: the forms of Home Assistant (config_flow.py) and what its entities carry besides
-- their values (icons, device info, attributes), which is glue; logging; the login and the sockets of
-- ayla_client.py; and the labels of the messages in __init__.py. The lock between two cold connects
-- is not there, since the end of a background task is one step of Session.Tasks; nor is the removal of
-- an entry whose platforms did not unload. What Home Assistant keeps of a poll is
-- taken to be what _async_update_data returned. The time of a property (datetime), `json.loads`,
-- `str.lower`, `repr`, the answers of the cloud and the registries are arguments.

pub mod Prelude
pub mod Bits
pub mod Bytes
pub mod Crc
pub mod Base64
pub mod Const
pub mod Hex
pub mod Command
pub mod Monitor
pub mod Catalog
pub mod Session
pub mod Client
pub mod Targets
pub mod Profile
pub mod Setup
pub mod Sniffer
pub mod Send
pub mod Coordinator
pub mod Counters
pub mod Entities
pub mod Poll
pub mod Tests
