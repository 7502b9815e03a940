-- ===== src/Lib.antt =====
-- A model of the USB device stack USBDevice, written in C, and the properties that make it correct.
--
-- The program. A peripheral driver, which is outside of the repository, calls the stack when a setup
-- packet has come (USBD_SetupCallback), when a transfer is over (USBD_EpInCallback,
-- USBD_EpOutCallback) and when the bus was reset (USBD_ResetCallback). The stack answers the
-- standard requests to the device, to an interface and to an endpoint, and passes the other requests
-- to the class of an interface; a class in turn calls the functions of the control endpoint
-- (USBD_CtrlSendData, USBD_CtrlReceiveData) and of its own endpoints (USBD_EpSend, USBD_EpReceive).
--
-- The files, and the code that they model:
--   Base         lists, Boolean tests and updates of functions, for the other modules
--   Device       Include/usb_types.h, Include/usbd_types.h and the calls of docs/usbd_pd_if.h
--   Endpoint     Include/private/usbd_internal.h, and USBD_EpSend, USBD_EpReceive of Device/usbd_ep.c
--   Control      Device/usbd_ctrl.c, the functions that call no class
--   World        the interface handles and the callbacks of Include/private/usbd_private.h
--   Interface    Device/usbd_if.c
--   Text         the strings of Device/usbd_desc.c, and Device/usbd_utils.c
--   Descriptor   Device/usbd_desc.c, and USBD_IfString of Device/usbd_if.c
--   Request      the requests of Device/usbd.c and Device/usbd_ep.c
--   Callback     the entry points of Device/usbd.c, Device/usbd_ctrl.c and Device/usbd_ep.c
--   Bus          the events of the driver on a whole device, one after another: the callbacks of
--                Device/usbd.c, Device/usbd_ctrl.c and Device/usbd_ep.c as steps of one relation
--   Composite    a device with the firmware upgrade of Class/DFU/usbd_dfu.c and the mass storage of
--                Class/MSC/usbd_msc.c, called through their tables dfu_cbks, rodfu_cbks and msc_cbks
--   Bulk         the steps that the classes below take in the same way
--   Dfu          Include/usbd_dfu.h and Class/DFU/usbd_dfu.c: Dfu/Requests the class requests,
--                Dfu/Setup the setup stage, Dfu/Stages the other callbacks and the exported functions,
--                Dfu/Events their sequences, Dfu/Extension the build with USBD_DFU_ST_EXTENSION,
--                Dfu/Alternates that with USBD_DFU_ALTSETTINGS
--   Msc          Include/usbd_msc.h: Msc/Blocks the transfer of blocks of Class/MSC/usbd_msc_scsi.c and
--                the IN side of Class/MSC/usbd_msc.c, Msc/Commands the other commands and their
--                dispatch, Msc/Transport the OUT side and the setup stage, Msc/Mount the rest
--   Hid          Include/usbd_hid.h and Class/HID/usbd_hid.c, with Hid/Mount the descriptor and mounting,
--                Hid/Alternates the build with USBD_HID_ALTSETTINGS
--   Cdc          Include/usbd_cdc.h and Class/CDC/usbd_cdc.c, with Cdc/Mount the descriptor and mounting
--   Ncm          Include/usbd_ncm.h and Class/CDC/usbd_ncm.c: Ncm/Send the IN side, Ncm/Receive the OUT
--                side, Ncm/Stages the control pipe, the connection and the mounting, Ncm/Describe the
--                descriptors, Ncm/Events sequences of calls
--   Microsoft    Include/usb_microsoft_os.h and Device/usbd_microsoft_os.c, in both of its builds;
--                Microsoft/Store the BOS descriptor of Device/usbd_desc.c and the vendor request of
--                Device/usbd.c
--   Console      Templates/console_if.c, the ring buffers between a serial port and the standard streams
--   Mounts       the mount functions of the classes, one after the other
--   Tests        a small device, and runs of the properties on it
-- The other files hold proofs, and are named for what they prove.
--
-- The state. `Device` is USBD_HandleType, and a function that takes `dev` becomes a function from
-- `Device` to `Device`, or to a pair with its USBD_ReturnType. Arrays are functions of their index.
-- Two fields of `Device` are ghosts: `calls` lists the calls of the peripheral driver, the last one
-- first, and `out_of_range` is set by any access past the end of `IF` or `EP`. A function that may
-- call a class works on a `World`, which has the store of interface handles too; `Device.ifs` holds
-- references into it, since one handle may stand at several places of `IF`. A function of a class
-- works on its handle and the device, together a `Ctx`, `MscCtx`, `HidCtx`, `CdcCtx` or `NcmCtx`.
-- The pages of a double buffer of the network class are functions from an offset to a byte. Words keep
-- their wrap-around: `% 256`, `% 65536`, `% 2 ^ 32`; a bit mask of the low bits is a remainder.
--
-- Parameters. `Platform` has the build options that the code tests, and `transfer` and
-- `transfer_at`, what the driver leaves in `Transfer.Length` and `Transfer.Data`. `Class` has the
-- callbacks of the classes of the interfaces; what a property needs of them is a named hypothesis
-- (`IsTame`, `IsSafeAt`, `IsModest`). `Composite` is such a `Class`, made of the models
-- of two classes. `Dfu.App`, `HidApp`, `CdcApp` and `NcmApp` have the functions of the
-- application, `Msc.LogicalUnit` those of a medium; USBD_Deinit, which the interface of the
-- firmware upgrade calls to shut the device down, is the parameter `shutdown` of its model; in
-- `Composite` it is USBD_Deinit as modelled.
-- `HidOptions`, `CdcOptions` and `NcmOptions` have the build options of these classes, and
-- `StoreOptions` those of the BOS descriptor and of the Microsoft descriptors.
--
-- Bounds. A loop over the interfaces counts in a byte, and has 256 rounds of fuel; that of
-- USBD_IfConfig is shown to be the iteration over the mounted interfaces
-- (`Interface/Config.antt`). The loop of USBD_EpHsInterval has 13 rounds, all that its condition
-- leaves. The loop over the logical units counts in a byte too; with 256 units that of the source
-- does not end, and the model's stops. The loop that verifies the tables of a network transfer
-- block (`Ncm/Receive.antt`) follows the host's links on fuel, and returns `none` when it goes on;
-- `Ncm/Verify.antt` says how much fuel is enough. Every other loop goes along a list or over the
-- whole of an array. A string ends where its list ends, or at the first zero.
--
-- Not modelled: the strings of the interfaces of two classes (msc_getString, cdc_getString), which
-- return a pointer and change nothing; the fields of `Base` in the handle of a class, other than its
-- reference; the peripheral drivers (PDs), which wrap code that is outside of the repository.
pub mod Base
pub mod Device
pub mod Endpoint
pub mod Control
pub mod World
pub mod Interface
pub mod Text
pub mod Descriptor
pub mod Request
pub mod Callback
pub mod Bulk
pub mod Bus
pub mod Composite
pub mod Dfu
pub mod Msc
pub mod Hid
pub mod Cdc
pub mod Ncm
pub mod Microsoft
pub mod Console
pub mod Mounts
pub mod Tests
