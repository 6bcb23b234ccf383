-- ===== src/Lib.antt =====
-- Fox Passport Republic API: the rules that decide money, reservations and statuses of a platform
-- on which citizens book events, venues, services and gear.
--
-- The program is an Express server over one PostgreSQL database. Its components are the services
-- under src/modules; they share state through the tables of prisma/schema. Eleven are modelled,
-- some in part:
--   Transaction (files Transaction*): src/modules/transaction-status. One function per table
--     (transition_asset, transition_service, transition_venue), dispatched by `transition`, over
--     the three transaction tables. Step is the step relation, Trace the sequences of calls.
--   Pricing (files Pricing*): src/modules/pricing/pricing.service.ts. Data has the rows of
--     prisma/schema/money.prisma; Voucher the eligibility, limits and amount of a discount; Auto
--     the automatic promotion; Price the platform fee and calculatePrice; Items the discounts of
--     the line items of an event.
--   Idempotency (files Idempotency*): src/modules/idempotency/idempotency.service.ts, whose
--     `claim` and `complete` guard the booking and admin services against double execution.
--     Lease, Held and Once are about sequences of calls.
--   Bidding (files Bidding*): src/modules/bidding/bidding.service.ts, with the rows in Data. The
--     functions for service bids and asset bids are one function with a `Kind`. Decision is the
--     relation between the bids before and after; Unique, Final and Outcome are about what
--     sequences of calls and one acceptance leave.
--   Reward (files Reward*): src/modules/reward/reward.service.ts and reward.repository.ts. Data
--     has the rows of prisma/schema/reward.prisma; Reward the grants; Spend the reversals and
--     redemptions, and the run of calls; Ledger, Budget and Once are about such runs. Its
--     vouchers are rows that Pricing reads.
--   Refund (files Refund*): computeRefund and checkEligibility of
--     src/modules/refund/refund.service.ts. Best is about the rule that is chosen, Bounds about
--     the money.
--   Payout (files Payout*): src/modules/payout/payout.service.ts. Data has the rows and the log of
--     what Stripe did; Payout the ledger's three operations; Split the shares of investors; Booking
--     who is paid for a completed booking. Ledger and Once are about sequences of calls, Settled
--     about one job, and Shape, Kept, Known and Event about the jobs of an event's booking.
--   Appointment (files Appointment*): src/modules/appointment. Data has the rows and permissions,
--     Access the answers of appointment.access.ts, Team the calls of appointment.service.ts that
--     make an appointment and Team/Calls the others, with `step` and `run` over all of them. Change
--     is the relation between the rows before and after; the partial unique index of the database
--     is not modelled, since the calls' own checks keep what it states. Granted joins Team and
--     Access; Experience is organizer-xp.service.ts and its ledger.
--   Availability (files Availability*): src/modules/availability. Schedule has the days of a
--     provider (provider-schedule.ts), Check the checks of availability.service.ts. Capacity is
--     about the insertions behind a check of assets, Exclusive about those of venues and services,
--     Agree about the calendar.
--   Billing (files Billing*): the billing periods and totals of src/utils/pricing.ts.
--   Passport (files Passport*): the levels of src/modules/passport/passport.service.ts.
-- Prelude has the tests, lists, results, signed integers and JavaScript numbers that these share.
--
-- How the program is read. A handler is one function, of the tables and its parameters, to an
-- error or a result with the new tables; the order of its checks is the code's. An error leaves
-- the tables, since it rolls the database transaction back. A handler that locks its row, or is
-- one statement, is one atomic step; concurrent calls are sequences of steps. Where the code
-- takes no lock (grants, reversals and redemptions of coins, submissions and answers of bids,
-- payouts, appointments) the sequences are those of calls that do not overlap. A table is the list
-- of its rows in the order of the query. Strings that are only compared are numbers, 0 being the
-- empty string. Dates are milliseconds since the epoch. A call reads the clock once, except that a
-- claim has the server's and the database's time, and a difference of times that could be negative
-- is written as a sum on the other side, or is 0 where nothing depends on it.
-- Prices computed in JavaScript are over the parameter `Number`, with laws of the order
-- that hold of IEEE doubles without NaN; coins and quantities are natural numbers. Every loop
-- is over a list, but that of calculateLevel, whose fuel is proved to be enough.
--
-- Not modelled: what Stripe, mail, sockets, files and search do; the permission check and the
-- availability check that Bidding calls, and the passport that Reward calls, which are parameters;
-- bookings, checkout and the execution of refunds; the regular expressions that clean up the names
-- of cities, and Math.pow, which are parameters too; the controllers and routes in front of the
-- services.
pub mod Prelude
pub mod Transaction
pub mod Pricing
pub mod Idempotency
pub mod Bidding
pub mod Reward
pub mod Refund
pub mod Payout
pub mod Appointment
pub mod Availability
pub mod Passport
pub mod Billing
